-- ===== src/Directory/Scan.antt =====
-- src/dir.rs: what the loops over the chain of slabs find, before and after one entry changes.
use evering.Base.{
  subst, lt→ltb, ℕ, zero, suc, ◌+◌, ◌≤◌, ◌<◌, ◌≡◌, ◌⊎◌, inl, inr, refl, sym, ap, ◌∙◌, Bool, true,
  false, if◌then◌else◌, Option, none, some, Result, ok, err, panicked, arith, and_then,
}
use evering.Directory.Memory.{capacity, Error, Memory, Region}
use evering.Directory.Lookup.{
  u32_max, next_slab, slab, entry, first, onward, scan, Slot, reservable, reserve, reserved,
  slot_of,
}

-- one test, and the rest
choose_some :
    (b : Bool) (i : ℕ) (rest : Option ℕ) {j : ℕ}
    → (if b then some i else rest) ≡ some j
    → ((b ≡ true) × (i ≡ j)) ⊎ ((b ≡ false) × (rest ≡ some j))
choose_some true i rest e = inl (refl, ground (arith, e))
choose_some false i rest e = inr (refl, e)

choose_none :
    (b : Bool) (i : ℕ) (rest : Option ℕ)
    → (if b then some i else rest) ≡ none
    → (b ≡ false) × (rest ≡ none)
choose_none true i rest e = absurd (ground (arith, e))
choose_none false i rest e = (refl, e)

first_found :
    (t : ℕ → Bool) (left i : ℕ) {j : ℕ} → first t left i ≡ some j → (t j ≡ true) × (j < i + left)
unfolding first
first_found t zero i e = absurd (ground (arith, e))
first_found t (suc left) i e = elim (choose_some (t i) i (first t left (suc i)) e) [
  | inl (h, same) ↦ (ap t (sym same) ∙ h, omega (arith, same))
  | inr (h, later) ↦
      let (holds, small) = first_found t left (suc i) later in (holds, omega (arith, small))
]

first_same :
    (t t' : ℕ → Bool) (left i : ℕ) {j : ℕ}
    → ((k : ℕ) → t k ≡ false → t' k ≡ false)
    → first t left i ≡ some j
    → t' j ≡ true
    → first t' left i ≡ some j
unfolding first
first_same t t' zero i keep e h = absurd (ground (arith, e))
first_same t t' (suc left) i keep e h = elim (choose_some (t i) i (first t left (suc i)) e) [
  | inl (holds, same) ↦ rw (ap t' same ∙ h) (ap some same)
  | inr (fails, later) ↦ rw (keep i fails) (first_same t t' left (suc i) keep later h)
]

first_none :
    (t t' : ℕ → Bool) (left i : ℕ)
    → ((k : ℕ) → t k ≡ false → t' k ≡ false)
    → first t left i ≡ none
    → first t' left i ≡ none
unfolding first
first_none t t' zero i keep e = refl
first_none t t' (suc left) i keep e =
    let (fails, later) = choose_none (t i) i (first t left (suc i)) e in
    rw (keep i fails) (first_none t t' left (suc i) keep later)

-- What `scan` does with the outcome of the loop over one slab.
visit_cases :
    {A : Type 0} (f : Option ℕ) (found : ℕ → A) (next : A) {a : A}
    → (elim f [ some i ↦ found i | none ↦ next ]) ≡ a
    → ((i : ℕ) × (f ≡ some i) × (found i ≡ a)) ⊎ ((f ≡ none) × (next ≡ a))
visit_cases none found next e = inr (refl, e)
visit_cases (some i) found next e = inl (i, refl, e)

-- The next slab, when the scan goes on to find something, and when it ends.
onward_found :
    {Z : Type 0} (x : Result (Option ℕ) Error) (go : ℕ → Result (Option Z) Error) {z : Z}
    → onward x (ok none) err go panicked ≡ ok (some z)
    → (q : ℕ) × (x ≡ ok (some q)) × (go q ≡ ok (some z))
onward_found (ok none) go e = absurd (ground (arith, e))
onward_found (ok (some q)) go e = (q, refl, e)
onward_found (err x) go e = absurd (ground (arith, e))
onward_found panicked go e = absurd (ground (arith, e))

onward_end :
    {Z : Type 0} (x : Result (Option ℕ) Error) (go go' : ℕ → Result (Option Z) Error)
    → ((q : ℕ) → go q ≡ ok none → go' q ≡ ok none)
    → onward x (ok none) err go panicked ≡ ok none
    → onward x (ok none) err go' panicked ≡ ok none
onward_end (ok none) go go' ends e = refl
onward_end (ok (some q)) go go' ends e = ends q e
onward_end (err x) go go' ends e = absurd (ground (arith, e))
onward_end panicked go go' ends e = absurd (ground (arith, e))

module _ (r : Region) (m m' : Memory) (t t' : ℕ → Bool)
    (chain : (q : ℕ) → next_slab r m' q ≡ next_slab r m q)
    (keep : (q k : ℕ) → t (m.state q k) ≡ false → t' (m'.state q k) ≡ false) where
  found_here :
      (index place j : ℕ) {i p e : ℕ}
      → first (λ k. t (m.state place k)) capacity 0 ≡ some j
      → ◌≡◌ {A = Result (Option (ℕ × ℕ × ℕ)) Error}
          (ok (some (index, place, j)))
          (ok (some (i, p, e)))
      → t' (m'.state p e) ≡ true
      → first (λ k. t' (m'.state place k)) capacity 0 ≡ some j
  found_here index place j here eq holds =
      first_same (λ k. t (m.state place k)) (λ k. t' (m'.state place k)) capacity 0 (keep place)
        here (ground (arith, eq, holds))

  none_here :
      (place : ℕ)
      → first (λ k. t (m.state place k)) capacity 0 ≡ none
      → first (λ k. t' (m'.state place k)) capacity 0 ≡ none
  none_here place =
      first_none (λ k. t (m.state place k)) (λ k. t' (m'.state place k)) capacity 0 (keep place)

  -- A scan that found an entry finds it again, when no earlier entry passes the new test.
  pub scan_same :
      (left index place i p e : ℕ)
      → scan t r m left index place ≡ ok (some (i, p, e))
      → t' (m'.state p e) ≡ true
      → scan t' r m' left index place ≡ ok (some (i, p, e))
  unfolding scan
  scan_same zero index place i p e found holds =
      elim (visit_cases (first (λ k. t (m.state place k)) capacity 0) _ _ found) [
        | inl (j, here, eq) ↦ rw (scan, found_here index place j here eq holds) eq
        | inr (gone, eq) ↦
            let (q, x, y) = onward_found (next_slab r m place) _ eq in absurd (ground (arith, y))
      ]
  scan_same (suc left) index place i p e found holds =
      elim (visit_cases (first (λ k. t (m.state place k)) capacity 0) _ _ found) [
        | inl (j, here, eq) ↦ rw (scan, found_here index place j here eq holds) eq
        | inr (gone, eq) ↦
            let (q, x, y) = onward_found (next_slab r m place) _ eq in
            rw (scan, none_here place gone, chain place, x)
              (scan_same left (suc index) q i p e y holds)
      ]

  -- A scan that ended without an entry ends so again, when none passes the new test.
  pub scan_none :
      (left index place : ℕ)
      → scan t r m left index place ≡ ok none
      → scan t' r m' left index place ≡ ok none
  unfolding scan
  scan_none zero index place ended =
      elim (visit_cases (first (λ k. t (m.state place k)) capacity 0) _ _ ended) [
        | inl (j, here, eq) ↦ absurd (ground (arith, eq))
        | inr (gone, eq) ↦ rw (scan, none_here place gone, chain place) eq
      ]
  scan_none (suc left) index place ended =
      elim (visit_cases (first (λ k. t (m.state place k)) capacity 0) _ _ ended) [
        | inl (j, here, eq) ↦ absurd (ground (arith, eq))
        | inr (gone, eq) ↦
            rw (scan, none_here place gone, chain place)
              (onward_end (next_slab r m place) (scan t r m left (suc index))
                (scan t' r m' left (suc index)) (λ q. scan_none left (suc index) q) eq)
      ]

entry_here :
    (t : ℕ → Bool) (r : Region) (m : Memory) (index place j i p e : ℕ)
    → slab r m index ≡ ok place
    → first (λ k. t (m.state place k)) capacity 0 ≡ some j
    → ◌≡◌ {A = Result (Option (ℕ × ℕ × ℕ)) Error}
        (ok (some (index, place, j)))
        (ok (some (i, p, e)))
    → (entry r m i e ≡ ok (p, e)) × (t (m.state p e) ≡ true)
unfolding entry
entry_here t r m index place j i p e at here eq =
    let (holds, small) = first_found (λ k. t (m.state place k)) capacity 0 here in
    let (a, b, c) : (index ≡ i) × (place ≡ p) × (j ≡ e) = ground (arith, eq) in
    subst (λ z. (entry r m z e ≡ ok (p, e)) × (t (m.state p e) ≡ true)) a
      (subst (λ z. (entry r m index e ≡ ok (z, e)) × (t (m.state z e) ≡ true)) b
        (subst (λ z. (entry r m index z ≡ ok (place, z)) × (t (m.state place z) ≡ true)) c
          (rw (at, lt→ltb j capacity small) refl, holds)))

-- The index that a scan answers leads to the slab that it answers, and the entry is one of the slab.
pub scan_entry :
    (t : ℕ → Bool) (r : Region) (m : Memory) (left index place i p e : ℕ)
    → slab r m index ≡ ok place
    → scan t r m left index place ≡ ok (some (i, p, e))
    → (entry r m i e ≡ ok (p, e)) × (t (m.state p e) ≡ true)
unfolding scan entry slab
scan_entry t r m zero index place i p e at found =
    elim (visit_cases (first (λ k. t (m.state place k)) capacity 0) _ _ found) [
      | inl (j, here, eq) ↦ entry_here t r m index place j i p e at here eq
      | inr (gone, eq) ↦
          let (q, x, y) = onward_found (next_slab r m place) _ eq in absurd (ground (arith, y))
    ]
scan_entry t r m (suc left) index place i p e at found =
    elim (visit_cases (first (λ k. t (m.state place k)) capacity 0) _ _ found) [
      | inl (j, here, eq) ↦ entry_here t r m index place j i p e at here eq
      | inr (gone, eq) ↦
          let (q, x, y) = onward_found (next_slab r m place) _ eq in
          scan_entry t r m left (suc index) q i p e (rw (at, x) refl) y
    ]

pub scan_bound :
    (t : ℕ → Bool) (r : Region) (m : Memory) (left index place i p e : ℕ)
    → scan t r m left index place ≡ ok (some (i, p, e))
    → i ≤ index + left
unfolding scan
scan_bound t r m zero index place i p e found =
    elim (visit_cases (first (λ k. t (m.state place k)) capacity 0) _ _ found) [
      | inl (j, here, eq) ↦ ground (arith, eq)
      | inr (gone, eq) ↦
          let (q, x, y) = onward_found (next_slab r m place) _ eq in absurd (ground (arith, y))
    ]
scan_bound t r m (suc left) index place i p e found =
    elim (visit_cases (first (λ k. t (m.state place k)) capacity 0) _ _ found) [
      | inl (j, here, eq) ↦ ground (arith, eq)
      | inr (gone, eq) ↦
          let (q, x, y) = onward_found (next_slab r m place) _ eq in
          omega (arith, scan_bound t r m left (suc index) q i p e y)
    ]

reserved_slot :
    (m : Memory) (slot : Slot) (x : Result (Option (ℕ × ℕ × ℕ)) Error)
    → and_then x (reserved m) ≡ ok slot
    → (p : ℕ) × (x ≡ ok (some (slot.slab, p, slot.entry)))
      × (slot ≡ slot_of m (slot.slab, p, slot.entry))
reserved_slot m slot (ok none) e = absurd (ground (arith, e))
reserved_slot m slot (ok (some (i, p, k))) e = (p, ground (arith, e), ground (arith, e))
reserved_slot m slot (err x) e = absurd (ground (arith, e))
reserved_slot m slot panicked e = absurd (ground (arith, e))

-- What `reserve` answers, by the scan.
pub reserve_found :
    (r : Region) (m : Memory) (slot : Slot)
    → reserve r m ≡ ok slot
    → (p : ℕ) × (scan reservable r m u32_max 0 0 ≡ ok (some (slot.slab, p, slot.entry)))
      × (slot ≡ slot_of m (slot.slab, p, slot.entry))
unfolding reserve
reserve_found r m slot e = reserved_slot m slot (scan reservable r m u32_max 0 0) e
