-- ===== src/Directory/Crash.antt =====
-- src/dir.rs: the memory that a participant leaves when it dies during a transaction on one entry, and
-- what `recover` makes of it.
use evering.Base.{
  ℕ, zero, suc, ◌+◌, ◌-◌, ◌%◌, ◌^◌, ◌<◌, ◌≡◌, inl, inr, refl, sym, ap, ap₂, ◌∙◌, Bool, true, false,
  ◌&&◌, ltb, ◌==◌, if◌then◌else◌, Option, none, some, Result, ok, err, arith, Bool-cases, and_then,
  map_err,
}
use evering.Steps.{run}
use evering.Directory.Memory.{
  clean, held, evidence, vacant, pending_state, create_kind, grow_kind, capacity, generation_max,
  entry_word, state_of, generation_of, owner_word, Error, Memory, Region, slab_at, stale,
}
use evering.Directory.Lookup.{
  without_slab, u32_max, next_slab, expect_slab, slab, entry, scan, reservable, in_transition,
  transition,
}
use evering.Directory.Transaction.{put}
use evering.Directory.Settle.{Operation, operation, settle, reservation}
use evering.Directory.Recover.{recover}
use evering.Directory.Enter.{recover_idle, held_settled, evidence_settled, after_dead}
use evering.Directory.Arms.{settle_reservation, put_at, put-put}
use evering.Directory.Scan.{scan_bound, scan_none, scan_same, scan_entry, scan_bound}

-- A creation by `owner` reserves entry `i` of the slab `place`, the slab of index `index`; before, no
-- entry was in transition.
pub record Target (r : Region) (live owner index place i : ℕ) (m : Memory) : Type 0 where
  pub same_region : r.id ≡ r.heap_id
  pub debug_on : r.debug ≡ true
  pub small : owner < 2 ^ 8
  pub settled : (q k : ℕ) → in_transition (m.state q k) ≡ false
  pub ended : scan in_transition r m u32_max 0 0 ≡ ok none
  pub found : scan reservable r m u32_max 0 0 ≡ ok (some (index, place, i))
  pub fits : m.state place i < 2 ^ 64

pub put_same : (f : ℕ → ℕ → ℕ) (at : ℕ × ℕ) (w : ℕ) → w ≡ f at.0 at.1 → put f at w ≡ f
unfolding put
put_same f at w e = λ j q k. pointwise q k j
  where
    pointwise : (q k : ℕ) → put f at w q k ≡ f q k
    pointwise q k = grind (arith, e)

pub put_twice : (f : ℕ → ℕ → ℕ) (at : ℕ × ℕ) (v w : ℕ) → put (put f at v) at w ≡ put f at w
put_twice f at v w = λ j q k. put-put f at v w q k j

pub put_keep :
    (f : ℕ → ℕ → ℕ) (at : ℕ × ℕ) (w q k : ℕ) (test : ℕ → Bool) (b : Bool)
    → test w ≡ b
    → test (f q k) ≡ b
    → test (put f at w q k) ≡ b
unfolding put
put_keep f at w q k test b e h = elim (Bool-cases ((q == at.0) && (k == at.1))) [
  | inl c ↦ rw (c) e
  | inr c ↦ rw (c) h
]

pub next_slab_same :
    (r : Region) (m m' : Memory) → m'.next ≡ m.next → (q : ℕ) → next_slab r m' q ≡ next_slab r m q
unfolding next_slab
next_slab_same r m m' e q =
    ap
      (λ n.
        if n q == 0
        then ok none
        else and_then (map_err Error.admission (slab_at r (n q))) (λ p. ok (some p)))
      e

slab_same :
    (r : Region) (m m' : Memory) → m'.next ≡ m.next → (index : ℕ) → slab r m' index ≡ slab r m index
unfolding slab
slab_same r m m' e zero = refl
slab_same r m m' e (suc index) = rw (slab_same r m m' e index) (
    ap
      (λ (f : ℕ → Result (Option ℕ) Error).
        and_then (slab r m index) (λ p. and_then (f p) (expect_slab stale)))
      (λ j q. next_slab_same r m m' e q j))

pub entry_same :
    (r : Region) (m m' : Memory)
    → m'.next ≡ m.next
    → (index k : ℕ) → entry r m' index k ≡ entry r m index k
unfolding entry
entry_same r m m' e index k =
    ap (λ x. and_then x (λ p. if ltb k capacity then ok (p, k) else err stale))
      (slab_same r m m' e index)

operation-held : (kind : ℕ) → operation kind pending_state held ≡ reservation
unfolding operation
operation-held kind = ground arith

module _ {r : Region} {live owner index place i : ℕ} {m0 : Memory}
    (t : Target r live owner index place i m0) where
  abbrev pub at : ℕ × ℕ
  at = (place, i)

  abbrev pub before : ℕ
  before = m0.state place i

  abbrev pub generation : ℕ
  generation = generation_of before + 1

  pub free : (state_of before ≡ vacant) × (generation_of before < generation_max)
  unfolding slab
  free =
      let (e, h) = scan_entry reservable r m0 u32_max 0 0 index place i refl t.found in
      (ground (arith, h), ground (arith, h, t.fits))

  reservable-before : reservable before ≡ true
  unfolding slab
  reservable-before = (scan_entry reservable r m0 u32_max 0 0 index place i refl t.found).1

  pub word_back : entry_word (generation - 1) vacant ≡ before
  word_back = omega (arith, free.0, t.fits)

  pub word_age : (s : ℕ) → s < 2 ^ 3 → generation_of (entry_word generation s) ≡ generation
  word_age s h = omega (arith, free.1, h)

  pub word_state : (s : ℕ) → s < 2 ^ 3 → state_of (entry_word generation s) ≡ s
  word_state s h = omega (arith, free.1, h)

  -- The entry of the transaction has the word `w`, and the others are as they were.
  pub record Shape (phase w : ℕ) (m : Memory) : Type 0 where
    pub word : m.transaction ≡ owner_word owner phase
    pub entries : m.state ≡ put m0.state at w
    pub chain : m.next ≡ m0.next

  module _ (w : ℕ) (m : Memory) where
    pub here : (phase : ℕ) → Shape phase w m → m.state place i ≡ w
    here phase s = ap (λ f. f place i) s.entries ∙ put_at m0.state at w

    reached : (phase : ℕ) → Shape phase w m → entry r m index i ≡ ok at
    unfolding slab
    reached phase s =
        entry_same r m0 m s.chain index i
        ∙ (scan_entry reservable r m0 u32_max 0 0 index place i refl t.found).0

    -- With the transaction held and the entry at rest, the transaction just ends.
    pub after_idle :
        Shape held w m
        → in_transition w ≡ false
        → (run (recover r live owner) m).1
          ≡ record m { transaction = clean; mutation = after_dead owner m.mutation }
    unfolding transition
    after_idle s rest = recover_idle r live owner m t.same_region t.small s.word (
        ap (λ x. and_then x without_slab)
          (scan_none r m0 m in_transition in_transition (next_slab_same r m0 m s.chain) quiet
            u32_max 0 0 t.ended))
      where
        quiet :
            (q k : ℕ) → in_transition (m0.state q k) ≡ false → in_transition (m.state q k) ≡ false
        quiet q k h =
            ap (λ f. in_transition (f q k)) s.entries
            ∙ put_keep m0.state at w q k in_transition false rest h

    -- With the transaction held and the entry in transition, the scan finds the entry.
    scan_finds : Shape held w m → in_transition w ≡ true → transition r m ≡ ok (some (index, i))
    unfolding transition put
    scan_finds s moving =
        ap (λ x. and_then x without_slab)
          (scan_same r m0 m reservable in_transition (next_slab_same r m0 m s.chain) quiet u32_max 0
            0 index place i t.found (ap in_transition (here held s) ∙ moving))
      where
        quiet : (q k : ℕ) → reservable (m0.state q k) ≡ false → in_transition (m.state q k) ≡ false
        quiet q k h = ap (λ f. in_transition (f q k)) s.entries ∙ elsewhere
          where
            elsewhere : in_transition (put m0.state at w q k) ≡ false
            elsewhere = elim (Bool-cases ((q == place) && (k == i))) [
              | inl c ↦
                  let (a, b) : (q ≡ place) × (k ≡ i) = ground (arith, c) in
                  absurd (
                    ground (
                      arith,
                      reservable-before,
                      sym (ap₂ (λ x y. reservable (m0.state x y)) a b) ∙ h,
                    ))
              | inr c ↦ rw (c) (t.settled q k)
            ]

    pub after_reservation :
        Shape held w m
        → w ≡ entry_word generation pending_state
        → (run (recover r live owner) m).1 ≡ record m {
          transaction = clean;
          mutation = after_dead owner m.mutation;
          state = put m.state at (entry_word (generation - 1) vacant);
        }
    unfolding operation
    after_reservation s e =
        let word = here held s ∙ e in
        ap (λ z. z.1)
          (held_settled r live owner m t.same_region t.small index i generation at reservation
            s.word
            (scan_finds s (ground (arith, ap state_of e ∙ word_state pending_state (omega arith))))
            (reached held s)
            (ap (λ x. operation m.pending_kind x held)
                (ap state_of word ∙ word_state pending_state (omega arith))
              ∙ operation-held m.pending_kind)
            (ap generation_of word ∙ word_age pending_state (omega arith)))
        ∙ settle_reservation r live owner (owner_word owner held) m at generation t.small s.word
            (omega arith)

    -- With evidence of a creation: the arm.
    pub after_evidence :
        (o : Operation) (age : ℕ)
        → Shape evidence w m
        → m.pending_slab ≡ index
        → m.pending_entry ≡ i
        → m.pending_kind ≡ create_kind
        → operation create_kind (state_of w) evidence ≡ o
        → generation_of w ≡ age
        → run (recover r live owner) m
          ≡ run (settle r live o owner (owner_word owner evidence) evidence at age) m
    after_evidence o age s e1 e2 e3 which old =
        evidence_settled r live owner m t.same_region t.small index i age at o s.word
          (ap (λ x. x == grow_kind) e3)
          (ap (λ x. x % 2 ^ 32) e1
            ∙ omega (arith, scan_bound reservable r m0 u32_max 0 0 index place i t.found))
          e2 (reached evidence s)
          (ap₂ (λ x y. operation x (state_of y) evidence) e3 (here evidence s) ∙ which)
          (ap generation_of (here evidence s) ∙ old)
