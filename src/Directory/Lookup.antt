-- ===== src/Directory/Lookup.antt =====
-- src/dir.rs: what is read of the chain of slabs: `next_slab`, `slab`, `entry`, `reserve`, `tail`,
-- `transition`, `offset`. The loops over the chain end because the index of a slab is a u32.
use evering.Base.{
  ℕ, zero, suc, ◌+◌, ◌-◌, ◌^◌, Bool, not, ◌&&◌, ◌||◌, ltb, ◌==◌, if◌then◌else◌, Option, none, some,
  Result, ok, err, panicked, and_then, map_err,
}
use evering.Directory.Memory.{
  vacant, published, quarantined_state, capacity, generation_max, state_of, generation_of, Error,
  Memory, Region, slab_at, full, stale,
}

abbrev pub u32_max : ℕ
u32_max = 2 ^ 32 - 1

unfoldable pub next_slab : Region → Memory → ℕ → Result (Option ℕ) Error
next_slab r m place =
    if m.next place == 0
    then ok none
    else and_then (map_err Error.admission (slab_at r (m.next place))) (λ q. ok (some q))

-- A next slab that is missing is the error `missing`.
abbrev pub expect_slab : Error → Option ℕ → Result ℕ Error
expect_slab missing none = err missing
expect_slab missing (some q) = ok q

unfoldable pub slab : Region → Memory → ℕ → Result ℕ Error
slab r m zero = ok 0
slab r m (suc index) =
    and_then (slab r m index) (λ p. and_then (next_slab r m p) (expect_slab stale))

unfoldable pub entry : Region → Memory → ℕ → ℕ → Result (ℕ × ℕ) Error
entry r m index i = and_then (slab r m index) (λ p. if ltb i capacity then ok (p, i) else err stale)

-- The first of `left` places from `i` on that passes the test.
unfoldable pub first : (ℕ → Bool) → ℕ → ℕ → Option ℕ
first test zero i = none
first test (suc left) i = let rest = first test left (suc i) in if test i then some i else rest

abbrev pub onward {ℓ} : {A : Type ℓ} → Result (Option ℕ) Error → A → (Error → A) → (ℕ → A) → A → A
onward (ok none) last failed go stuck = last
onward (ok (some q)) last failed go stuck = go q
onward (err e) last failed go stuck = failed e
onward panicked last failed go stuck = stuck

-- The loop that `reserve` and `transition` share: the first entry whose word passes the test, with the
-- index of its slab, the slab and its place.
unfoldable pub scan : (ℕ → Bool) → Region → Memory → ℕ → ℕ → ℕ → Result (Option (ℕ × ℕ × ℕ)) Error
scan test r m zero index place = elim (first (λ i. test (m.state place i)) capacity 0) [
  | some i ↦ ok (some (index, place, i))
  | none ↦ onward (next_slab r m place) (ok none) err (λ q. err full) panicked
]
scan test r m (suc left) index place = elim (first (λ i. test (m.state place i)) capacity 0) [
  | some i ↦ ok (some (index, place, i))
  | none ↦ onward (next_slab r m place) (ok none) err (scan test r m left (suc index)) panicked
]

pub record Slot : Type 0 where
  pub slab : ℕ
  pub entry : ℕ
  pub generation : ℕ
  pub vacant : ℕ

abbrev pub reservable : ℕ → Bool
reservable word = (state_of word == vacant) && not (generation_of word == generation_max)

abbrev pub slot_of : Memory → ℕ × ℕ × ℕ → Slot
slot_of m (index, place, i) = record {
  slab = index;
  entry = i;
  generation = generation_of (m.state place i) + 1;
  vacant = m.state place i;
}

abbrev pub reserved : Memory → Option (ℕ × ℕ × ℕ) → Result Slot Error
reserved m none = err full
reserved m (some found) = ok (slot_of m found)

unfoldable pub reserve : Region → Memory → Result Slot Error
reserve r m = and_then (scan reservable r m u32_max 0 0) (reserved m)

abbrev pub in_transition : ℕ → Bool
in_transition word =
    let s = state_of word in not ((s == vacant) || (s == published) || (s == quarantined_state))

abbrev pub without_slab : Option (ℕ × ℕ × ℕ) → Result (Option (ℕ × ℕ)) Error
without_slab none = ok none
without_slab (some (index, place, i)) = ok (some (index, i))

unfoldable pub transition : Region → Memory → Result (Option (ℕ × ℕ)) Error
transition r m = and_then (scan in_transition r m u32_max 0 0) without_slab

unfoldable pub tail_from : Region → Memory → ℕ → ℕ → ℕ → Result (ℕ × ℕ) Error
tail_from r m zero index place =
    onward (next_slab r m place) (ok (index, place)) err (λ q. err full) panicked
tail_from r m (suc left) index place =
    onward (next_slab r m place) (ok (index, place)) err (tail_from r m left (suc index)) panicked

unfoldable pub tail : Region → Memory → Result (ℕ × ℕ) Error
tail r m = tail_from r m u32_max 0 0

pub record EntryId : Type 0 where
  pub region : ℕ
  pub slab : ℕ
  pub entry : ℕ
  pub generation : ℕ

-- Of the entry found, the offset, while it is published at the generation.
abbrev pub resolve : Memory → ℕ → ℕ × ℕ → Result ℕ Error
resolve m generation at =
    let word = m.state at.0 at.1 in
    if not (state_of word == published) || not (generation_of word == generation)
    then err stale
    else ok (m.offset at.0 at.1)

-- MapDirectory::offset
unfoldable pub offset : Region → Memory → EntryId → Result ℕ Error
offset r m id =
    if id.region == r.id
    then and_then (entry r m id.slab id.entry) (resolve m id.generation)
    else err stale
