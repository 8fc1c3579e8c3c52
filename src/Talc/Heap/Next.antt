-- ===== src/Talc/Heap/Next.antt =====
-- src/talc.rs: `next_avail_bin_idx` finds the next class with a free chunk, and `toggle_avail` changes
-- one class.
use native.Mathlib.Nat.{div-mul-le_self, div-le_self}
use evering.Base.{
  ℕ, ◌+◌, ◌-◌, ◌*◌, ◌/◌, ◌%◌, ◌^◌, ◌≤◌, ◌<◌, ◌≡◌, inl, inr, sym, ap, ap₂, ◌∙◌, Bool, true, false,
  leb, ◌==◌, Option, none, some, arith, dec_lt, Bool-cases, leb→le, bit, bit_masked_above,
  bit_shift, bit_masked_below, ==→eq, bit_zero, bit_place, leb→lt,
}
use evering.Talc.Geometry.{Geometry, availability_words}
use evering.Talc.Heap.Memory.{Heap}
use evering.Talc.Heap.Availability.{avail_word, trailing_zeros, by_summary, next_avail_bin_idx}
use evering.Talc.Heap.Index.{
  trailing_lem, flag, IsIndexed, IsNext, unflag_true, clear_bit, below_bins, clear_summary,
}

masked_lt : (s k : ℕ) → s < 2 ^ 64 → s / 2 ^ k * 2 ^ k < 2 ^ 64
masked_lt s k h = omega (arith, h, div-mul-le_self s (2 ^ k))

-- The masked summary has the bits from `k` on.
masked_bit : (s k i : ℕ) → k ≤ i → bit (s / 2 ^ k * 2 ^ k) i ≡ bit s i
masked_bit s k i h =
    ap (λ j. bit (s / 2 ^ k * 2 ^ k) j) (omega (arith, h))
    ∙ bit_masked_above (s / 2 ^ k) k (i - k)
    ∙ bit_shift s k (i - k)
    ∙ ap (λ j. bit s j) (omega (arith, h))

masked_first : (s k t : ℕ) → bit (s / 2 ^ k * 2 ^ k) t ≡ 1 → k ≤ t
masked_first s k t e = elim (dec_lt t k) [
  | yes l ↦ absurd (omega (arith, e, bit_masked_below (s / 2 ^ k) k t l))
  | no l ↦ omega (arith, l)
]

module _ {g : Geometry} {h : Heap} {has : ℕ → Bool} (x : IsIndexed g h has) where
  open x use {few, small, bits, summary_small, summary_bits, summary_above, bounded}

  -- The first class of a word that is not zero.
  first_of_word :
      (t : ℕ)
      → t < availability_words g
      → 0 < avail_word h t
      → let j = t * 64 + trailing_zeros (avail_word h t) in
        (j < g.bins) × (has j ≡ true) × ((k : ℕ) → 64 * t ≤ k → k < j → has k ≡ false)
  first_of_word t l p =
      let (lt, set, below) = trailing_lem (avail_word h t) p (small t l) in
      let u = trailing_zeros (avail_word h t) in
      let found : has (t * 64 + u) ≡ true =
        unflag_true (has (t * 64 + u))
          (ap (λ j. flag (has j)) (omega arith) ∙ sym (bits t u l lt) ∙ set) in
      (
        below_bins x (t * 64 + u) found,
        found,
        λ k le k_lt. clear_bit x k (
            ap (λ i. bit (avail_word h i) (k % 64)) (omega (arith, le, k_lt, lt))
            ∙ below (k % 64) (omega (arith, le, k_lt, lt))),
      )

  summary_word : (t : ℕ) → bit h.summary t ≡ 1 → (t < availability_words g) × (0 < avail_word h t)
  summary_word t e = elim (dec_lt t (availability_words g)) [
    | yes l ↦ (l, ground (arith, e, summary_bits t l))
    | no l ↦ absurd (omega (arith, e, summary_above t (omega (arith, l))))
  ]

  by_summary_lem : (k : ℕ) → IsNext has g.bins (64 * k) (by_summary k h)
  unfolding by_summary
  by_summary_lem k = elim (Bool-cases (h.summary / 2 ^ k * 2 ^ k == 0)) [
    | inl e ↦ rw e (λ j le. clear_summary x j (
        sym (masked_bit h.summary k (j / 64) (omega (arith, le)))
        ∙ ap (λ m. bit m (j / 64)) (==→eq _ 0 e)
        ∙ bit_zero (j / 64)))
    | inr e ↦
        let m = h.summary / 2 ^ k * 2 ^ k in
        let (lt, set, below) =
          trailing_lem m (ground (arith, e)) (masked_lt h.summary k summary_small) in
        let t = trailing_zeros m in
        let k_le : k ≤ t = masked_first h.summary k t set in
        let (l, p) = summary_word t (sym (masked_bit h.summary k t k_le) ∙ set) in
        let (j_lt, found, before) = first_of_word t l p in
        rw e (
          omega (arith, k_le),
          j_lt,
          found,
          λ i le i_lt. elim (dec_lt i (64 * t)) [
            | yes near ↦ clear_summary x i (
                sym (masked_bit h.summary k (i / 64) (omega (arith, le)))
                ∙ below (i / 64) (omega (arith, near)))
            | no far ↦ before i (omega (arith, far)) i_lt
          ],
        )
  ]

  abbrev shifted : ℕ → ℕ
  shifted idx = avail_word h (idx / 64) / 2 ^ (idx % 64)

  -- A class of the word of `idx`, not below it, has its bit in the shifted word.
  bit-shifted :
      (idx k : ℕ)
      → idx ≤ k
      → k / 64 ≡ idx / 64
      → bit (shifted idx) (k - idx) ≡ bit (avail_word h (k / 64)) (k % 64)
  bit-shifted idx k le e =
      bit_shift (avail_word h (idx / 64)) (idx % 64) (k - idx)
      ∙ ap₂ (λ i b. bit (avail_word h i) b) (sym e) (omega (arith, le, e))

  IsNext-shifted :
      (idx : ℕ)
      → idx < g.bins
      → 0 < shifted idx
      → IsNext has g.bins idx (some (idx + trailing_zeros (shifted idx)))
  IsNext-shifted idx h_idx p =
      let l : idx / 64 < availability_words g = omega (arith, h_idx) in
      let word_lt = small (idx / 64) l in
      let (lt, set, below) =
        trailing_lem (shifted idx) p
          (omega (arith, word_lt, div-le_self (avail_word h (idx / 64)) (2 ^ (idx % 64)))) in
      let t = trailing_zeros (shifted idx) in
      let set' : bit (avail_word h (idx / 64)) (idx % 64 + t) ≡ 1 =
        sym (bit_shift (avail_word h (idx / 64)) (idx % 64) t) ∙ set in
      let near = bit_place (avail_word h (idx / 64)) 64 (idx % 64 + t) word_lt set' in
      let found : has (idx + t) ≡ true = unflag_true (has (idx + t)) (
        ap (λ j. flag (has j)) (omega arith)
        ∙ sym (bits (idx / 64) (idx % 64 + t) l near)
        ∙ set') in
      (
        omega arith,
        below_bins x (idx + t) found,
        found,
        λ k le k_lt. clear_bit x k (
            sym (bit-shifted idx k le (omega (arith, le, k_lt, near)))
            ∙ below (k - idx) (omega (arith, le, k_lt))),
      )

  shifted_none : (idx k : ℕ) → shifted idx ≡ 0 → idx ≤ k → k < 64 * (idx / 64 + 1) → has k ≡ false
  shifted_none idx k e le k_lt = clear_bit x k (
      sym (bit-shifted idx k le (omega (arith, le, k_lt)))
      ∙ ap (λ w. bit w (k - idx)) e
      ∙ bit_zero (k - idx))

  -- The same from `lo` on, when there is none from `idx` to `lo`.
  IsNext-before :
      (idx lo : ℕ)
      → idx ≤ lo
      → ((k : ℕ) → idx ≤ k → k < lo → has k ≡ false)
      → (found : Option ℕ) → IsNext has g.bins lo found
      → IsNext has g.bins idx found
  IsNext-before idx lo le empty none n =
      λ k k_le. elim (dec_lt k lo) [ yes l ↦ empty k k_le l | no l ↦ n k (omega (arith, l)) ]
  IsNext-before idx lo le empty (some j) n = (
    omega (arith, n.0, le),
    n.1,
    n.2,
    λ k k_le k_lt. elim (dec_lt k lo) [
      | yes l ↦ empty k k_le l
      | no l ↦ n.3 k (omega (arith, l)) k_lt
    ],
  )

  -- While the availability words say which classes have a free chunk and the summary says which
  -- words are not zero, `next_avail_bin_idx` is a search class by class: from whatever class on,
  -- it answers the first that has a free chunk, and nothing just where none has.
  pub next_lem : (idx : ℕ) → IsNext has g.bins idx (next_avail_bin_idx g h idx)
  unfolding next_avail_bin_idx
  next_lem idx = elim (Bool-cases (leb g.bins idx)) [
    | inl e ↦ rw e (λ k le. bounded k (omega (arith, le, leb→le g.bins idx e)))
    | inr e ↦
        let inside = leb→lt g.bins idx e in
        elim (Bool-cases (shifted idx == 0)) [
          | inr e' ↦ rw (e, e') (IsNext-shifted idx inside (ground (arith, e')))
          | inl e' ↦
              let empty : (k : ℕ) → idx ≤ k → k < 64 * (idx / 64 + 1) → has k ≡ false =
                λ k. shifted_none idx k (==→eq (shifted idx) 0 e') in
              elim (Bool-cases (leb (availability_words g) (idx / 64 + 1))) [
                | inl e'' ↦
                    rw (e, e', e'')
                      (λ k le. elim (dec_lt k (64 * (idx / 64 + 1))) [
                        | yes l ↦ empty k le l
                        | no l ↦ bounded k (omega (arith, l, leb→le _ _ e''))
                      ])
                | inr e'' ↦
                    rw (e, e', e'')
                      (IsNext-before idx (64 * (idx / 64 + 1)) (omega arith) empty
                        (by_summary (idx / 64 + 1) h) (by_summary_lem (idx / 64 + 1)))
              ]
        ]
  ]
