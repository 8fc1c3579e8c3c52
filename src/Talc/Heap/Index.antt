-- ===== src/Talc/Heap/Index.antt =====
-- src/talc.rs: what the availability words and their summary say, and that `next_avail_bin_idx` finds
-- the next class with a free chunk.
use native.Mathlib.Nat.{two-pow-succ}
use evering.Base.{
  ℕ, zero, suc, ◌+◌, ◌*◌, ◌/◌, ◌%◌, ◌^◌, ◌≤◌, ◌<◌, ◌≡◌, inl, inr, sym, ap, ◌∙◌, Bool, true, false,
  not, ◌==◌, if◌then◌else◌, Option, none, some, arith, dec_lt, Bool-cases, bit, bit_half, bit_first,
  ==→eq, bit_place, bit_zero,
}
use evering.Talc.Geometry.{Geometry, availability_words, word_bits}
use evering.Talc.Heap.Memory.{Heap}
use evering.Talc.Heap.Availability.{avail_word, trailing_from, trailing_zeros}

below_suc :
    (w t : ℕ)
    → ((i : ℕ) → i < t → bit (w / 2) i ≡ 0)
    → w % 2 ≡ 0
    → (i : ℕ) → i < t + 1
    → bit w i ≡ 0
below_suc w t below even zero h = bit_first w ∙ even
below_suc w t below even (suc i) h = sym (bit_half w i) ∙ below i (omega (arith, h))

-- The lowest bit that is set.
trailing_from_lem :
    (left w : ℕ)
    → 0 < w
    → w < 2 ^ left
    → (bit w (trailing_from left w) ≡ 1) × ((i : ℕ) → i < trailing_from left w → bit w i ≡ 0)
unfolding trailing_from
trailing_from_lem zero w h k = absurd (omega (arith, h, k))
trailing_from_lem (suc left) w h k = elim (Bool-cases (w % 2 == 0)) [
  | inl e ↦
      let (found, below) =
        trailing_from_lem left (w / 2) (ground (arith, e, h))
          (omega (arith, k, two-pow-succ left)) in
      let t = trailing_from left (w / 2) in
      rw e (
        ap (λ j. bit w j) (omega arith) ∙ sym (bit_half w t) ∙ found,
        below_suc w t below (==→eq (w % 2) 0 e),
      )
  | inr e ↦ rw e (ground (arith, e, bit_first w), λ i h. absurd (omega (arith, h)))
]

pub trailing_lem :
    (w : ℕ)
    → 0 < w
    → w < 2 ^ 64
    → (trailing_zeros w < 64)
      × (bit w (trailing_zeros w) ≡ 1)
      × ((i : ℕ) → i < trailing_zeros w → bit w i ≡ 0)
unfolding trailing_zeros
trailing_lem w h k =
    let (found, below) = trailing_from_lem 64 w h k in (bit_place w 64 _ k found, found, below)

abbrev pub flag : Bool → ℕ
flag has = if has then 1 else 0

-- The words say which classes are in `has`, and the summary which words are not zero.
pub record IsIndexed (g : Geometry) (h : Heap) (has : ℕ → Bool) : Type 0 where
  pub few : availability_words g ≤ word_bits
  pub small : (i : ℕ) → i < availability_words g → avail_word h i < 2 ^ 64
  pub bits :
      (i b : ℕ)
      → i < availability_words g
      → b < 64
      → bit (avail_word h i) b ≡ flag (has (64 * i + b))
  pub summary_small : h.summary < 2 ^ 64
  pub summary_bits :
      (i : ℕ) → i < availability_words g → bit h.summary i ≡ flag (not (avail_word h i == 0))
  pub summary_above : (i : ℕ) → availability_words g ≤ i → bit h.summary i ≡ 0
  pub bounded : (k : ℕ) → g.bins ≤ k → has k ≡ false

-- What the next class from `idx` on is.
abbrev pub IsNext : (ℕ → Bool) → ℕ → ℕ → Option ℕ → Type 0
IsNext has bins idx none = (k : ℕ) → idx ≤ k → has k ≡ false
IsNext has bins idx (some j) =
    (idx ≤ j) × (j < bins) × (has j ≡ true) × ((k : ℕ) → idx ≤ k → k < j → has k ≡ false)

pub unflag : (b : Bool) → flag b ≡ 0 → b ≡ false
unflag b h = ground (arith, h)

pub unflag_true : (b : Bool) → flag b ≡ 1 → b ≡ true
unflag_true b h = ground (arith, h)

module _ {g : Geometry} {h : Heap} {has : ℕ → Bool} (x : IsIndexed g h has) where
  open x use {few, small, bits, summary_small, summary_bits, summary_above, bounded}

  in_words : (k : ℕ) → has k ≡ true → k / 64 < availability_words g
  in_words k e = elim (dec_lt k g.bins) [
    | yes l ↦ omega (arith, l)
    | no l ↦ absurd (ground (arith, e, bounded k (omega (arith, l))))
  ]

  pub below_bins : (k : ℕ) → has k ≡ true → k < g.bins
  below_bins k e = elim (dec_lt k g.bins) [
    | yes l ↦ l
    | no l ↦ absurd (ground (arith, e, bounded k (omega (arith, l))))
  ]

  -- A class whose bit is zero has none.
  pub clear_bit : (k : ℕ) → bit (avail_word h (k / 64)) (k % 64) ≡ 0 → has k ≡ false
  clear_bit k e = elim (dec_lt k g.bins) [
    | yes l ↦ unflag (has k) (
        ap (λ j. flag (has j)) (omega arith)
        ∙ sym (bits (k / 64) (k % 64) (omega (arith, l)) (omega arith))
        ∙ e)
    | no l ↦ bounded k (omega (arith, l))
  ]

  pub clear_word : (k : ℕ) → avail_word h (k / 64) ≡ 0 → has k ≡ false
  clear_word k e = clear_bit k (ap (λ w. bit w (k % 64)) e ∙ bit_zero (k % 64))

  pub clear_summary : (k : ℕ) → bit h.summary (k / 64) ≡ 0 → has k ≡ false
  clear_summary k e = elim (dec_lt k g.bins) [
    | yes l ↦ clear_word k (ground (arith, e, summary_bits (k / 64) (omega (arith, l))))
    | no l ↦ bounded k (omega (arith, l))
  ]
