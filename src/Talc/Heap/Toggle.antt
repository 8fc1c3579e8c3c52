-- ===== src/Talc/Heap/Toggle.antt =====
-- src/talc.rs: `toggle_avail` inverts what the words and the summary say of one class.
use evering.Base.{
  ℕ, ◌+◌, ◌-◌, ◌*◌, ◌/◌, ◌%◌, ◌^◌, ◌<◌, ◌≡◌, inl, inr, refl, sym, ap, ◌∙◌, Bool, not, ◌==◌,
  if◌then◌else◌, arith, ℕ_discrete, Bool-cases, eq→==, flip, flip_lt, bit, bit_flipped, ne→==,
}
use evering.Cells.{with_bit, without_bit}
use evering.Talc.Geometry.{Geometry, availability_words}
use evering.Talc.Heap.Memory.{Heap}
use evering.Talc.Heap.Availability.{avail_word, summarized, toggle_avail}
use evering.Talc.Heap.Index.{flag, IsIndexed}

abbrev pub toggled : ℕ → (ℕ → Bool) → ℕ → Bool
toggled idx has k = if k == idx then not (has k) else has k

bit-with_bit : (s i j : ℕ) → bit (with_bit s i) j ≡ (if j == i then 1 else bit s j)
bit-with_bit s i j = ground (arith, bit_flipped s i j)

bit-without_bit : (s i j : ℕ) → bit (without_bit s i) j ≡ (if j == i then 0 else bit s j)
bit-without_bit s i j = ground (arith, bit_flipped s i j)

bit-summarized :
    (s i w f j : ℕ)
    → bit s i ≡ flag (not (w == 0))
    → bit (summarized s i w f) j ≡ (if j == i then flag (not (f == 0)) else bit s j)
bit-summarized s i w f j e = elim (Bool-cases (f == 0)) [
  | inl e' ↦ elim (Bool-cases (w == 0)) [
    | inl e'' ↦ rw (e', e'') (unchanged (ap (λ b. flag (not b)) e''))
    | inr e'' ↦ rw (e', e'') (bit-without_bit s i j)
  ]
  | inr e' ↦ elim (Bool-cases (w == 0)) [
    | inl e'' ↦ rw (e', e'') (bit-with_bit s i j)
    | inr e'' ↦ rw (e', e'') (unchanged (ap (λ b. flag (not b)) e''))
  ]
]
  where
    unchanged : {v : ℕ} → flag (not (w == 0)) ≡ v → bit s j ≡ (if j == i then v else bit s j)
    unchanged {v} e'' = elim (ℕ_discrete j i) [
      | yes same ↦ rw (eq→== j i same) (ap (λ k. bit s k) same ∙ e ∙ e'')
      | no n ↦ rw (ne→== j i n) refl
    ]

-- The bit of class `k`, in its word with the bit of `idx` inverted.
bit-toggled :
    (has : ℕ → Bool) (idx i b w : ℕ)
    → i ≡ idx / 64
    → b < 64
    → bit w b ≡ flag (has (64 * i + b))
    → bit w (idx % 64) ≡ flag (has idx)
    → (if b == idx % 64 then 1 - bit w (idx % 64) else bit w b)
      ≡ flag (toggled idx has (64 * i + b))
bit-toggled has idx i b w e b_lt at_b at_idx = elim (ℕ_discrete b (idx % 64)) [
  | yes e' ↦
      let here : 64 * i + b ≡ idx = omega (arith, e, e') in
      rw (eq→== b (idx % 64) e', eq→== (64 * i + b) idx here, at_idx, here) (inverted (has idx))
  | no n ↦
      rw (ne→== b (idx % 64) n, ne→== (64 * i + b) idx (λ e'. n (omega (arith, e, e', b_lt)))) at_b
]
  where
    inverted : (c : Bool) → 1 - flag c ≡ flag (not c)
    inverted c = ground arith

module _ {g : Geometry} {h : Heap} {has : ℕ → Bool} (x : IsIndexed g h has) (idx : ℕ)
    (inside : idx < g.bins) where
  open x use {few, small, bits, summary_small, summary_bits, summary_above, bounded}

  abbrev flipped : ℕ
  flipped = flip (avail_word h (idx / 64)) (idx % 64)

  avail_toggled :
      (i : ℕ)
      → avail_word (toggle_avail idx h) i ≡ (if i == idx / 64 then flipped else avail_word h i)
  unfolding toggle_avail
  avail_toggled i = ground arith

  small_toggled : (i : ℕ) → i < availability_words g → avail_word (toggle_avail idx h) i < 2 ^ 64
  small_toggled i l = ground (
    arith,
    avail_toggled i,
    small i l,
    flip_lt (avail_word h (idx / 64)) (idx % 64) 64 (omega arith),
  )

  bits_toggled :
      (i b : ℕ)
      → i < availability_words g
      → b < 64
      → bit (avail_word (toggle_avail idx h) i) b ≡ flag (toggled idx has (64 * i + b))
  bits_toggled i b l b_lt = elim (ℕ_discrete i (idx / 64)) [
    | yes e ↦
        let w = avail_word h (idx / 64) in
        ap (λ v. bit v b) (ground (arith, avail_toggled i, e))
        ∙ bit_flipped w (idx % 64) b
        ∙ bit-toggled has idx i b w e b_lt
            (ap (λ j. bit (avail_word h j) b) (sym e) ∙ bits i b l b_lt)
            (bits (idx / 64) (idx % 64) (omega (arith, inside)) (omega arith)
              ∙ ap (λ j. flag (has j)) (omega arith))
    | no n ↦
        ap (λ v. bit v b) (ground (arith, avail_toggled i, n))
        ∙ bits i b l b_lt
        ∙ ap (λ t. flag (if t then not (has (64 * i + b)) else has (64 * i + b)))
            (sym (ne→== (64 * i + b) idx (λ e'. n (omega (arith, e', b_lt)))))
  ]

  word_in : idx / 64 < availability_words g
  word_in = omega (arith, inside)

  summary_toggled :
      (i : ℕ)
      → bit (toggle_avail idx h).summary i
        ≡ (if i == idx / 64 then flag (not (flipped == 0)) else bit h.summary i)
  unfolding toggle_avail
  summary_toggled i =
      bit-summarized h.summary (idx / 64) (avail_word h (idx / 64)) flipped i
        (summary_bits (idx / 64) word_in)

  summary_lt : (toggle_avail idx h).summary < 2 ^ 64
  unfolding toggle_avail
  summary_lt = ground (
    arith,
    summary_small,
    flip_lt h.summary (idx / 64) 64 (omega (arith, word_in, few)) summary_small,
  )

  -- The words and the summary follow the class that is inverted.
  pub toggle_lem : IsIndexed g (toggle_avail idx h) (toggled idx has)
  toggle_lem = record {
    few = few;
    small = small_toggled;
    bits = bits_toggled;
    summary_small = summary_lt;
    summary_bits = λ i l. ground (arith, summary_toggled i, avail_toggled i, summary_bits i l);
    summary_above = λ i l. ground (arith, summary_toggled i, summary_above i l, word_in);
    bounded = λ k l. ground (arith, inside, bounded k l);
  }
