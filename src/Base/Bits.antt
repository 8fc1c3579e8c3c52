-- ===== src/Base/Bits.antt =====
-- The bits of a word, by division.
use Prim.Native.Nat.{ℕ, zero, suc, ◌+◌, ◌-◌, ◌*◌, ◌/◌, ◌%◌, ◌^◌, ◌<◌, ◌≤◌}
use mathlib.Core.Path.{◌≡◌, ap, ◌∙◌, sym, subst}
use mathlib.Core.Logic.{inl, inr}
use mathlib.Core.Bool.{false}
use native.Mathlib.Omega.{arith}
use native.Mathlib.Decide.{dec_lt}
use native.Mathlib.Nat.{
  pow-le-pow_right, le_trans, two-pow-succ, div-div-eq-div-mul, mul-div_cancel, div-eq_of_lt,
  div-one,
}
use evering.Base.Tests.{◌==◌, if◌then◌else◌, Bool-cases}
use evering.Base.Powers.{pow-add, two-pow-pos}

abbrev pub bit : ℕ → ℕ → ℕ
bit w i = w / 2 ^ i % 2

-- A bit inverted.
abbrev pub flip : ℕ → ℕ → ℕ
flip w i = if bit w i == 0 then w + 2 ^ i else w - 2 ^ i

pub bit_first : (w : ℕ) → bit w 0 ≡ w % 2
bit_first w = ap (λ x. x % 2) (div-one w)

pub bit_half : (w i : ℕ) → bit (w / 2) i ≡ bit w (suc i)
bit_half w i =
    ap (λ x. x % 2)
      (div-div-eq-div-mul w 2 (2 ^ i) ∙ ap (λ x. w / x) (omega (arith, two-pow-succ i)))

pub bit_shift : (w k i : ℕ) → bit (w / 2 ^ k) i ≡ bit w (k + i)
bit_shift w k i =
    ap (λ x. x % 2) (div-div-eq-div-mul w (2 ^ k) (2 ^ i) ∙ ap (λ x. w / x) (sym (pow-add k i)))

pub bit_zero : (i : ℕ) → bit 0 i ≡ 0
bit_zero i = ap (λ x. x % 2) (div-eq_of_lt (two-pow-pos i))

pub bit_above : (w i : ℕ) → w < 2 ^ i → bit w i ≡ 0
bit_above w i h = ap (λ x. x % 2) (div-eq_of_lt h)

-- A bit that is set lies within the word.
pub bit_place : (w n i : ℕ) → w < 2 ^ n → bit w i ≡ 1 → i < n
bit_place w n i h e = elim (dec_lt i n) [
  | yes l ↦ l
  | no l ↦ absurd (
      omega (
        arith,
        e,
        bit_above w i (le_trans h (pow-le-pow_right {n = 2} (omega arith) (no_lt i n l))),
      ))
]
  where
    no_lt : (a b : ℕ) → (a < b → ⊥) → b ≤ a
    no_lt a b l = omega (arith, l)

-- Words without their low bits.
pub bit_masked_above : (a k i : ℕ) → bit (a * 2 ^ k) (k + i) ≡ bit a i
bit_masked_above a k i =
    sym (bit_shift (a * 2 ^ k) k i) ∙ ap (λ x. bit x i) (mul-div_cancel a (two-pow-pos k))

mask_double : (a k : ℕ) → a * 2 ^ suc k ≡ 2 * (a * 2 ^ k)
mask_double a k = grind (arith, two-pow-succ k)

pub bit_masked_below : (a k i : ℕ) → i < k → bit (a * 2 ^ k) i ≡ 0
bit_masked_below a zero i h = absurd (omega (arith, h))
bit_masked_below a (suc k) zero h = bit_first (a * 2 ^ suc k) ∙ omega (arith, mask_double a k)
bit_masked_below a (suc k) (suc i) h =
    sym (bit_half (a * 2 ^ suc k) i)
    ∙ ap (λ x. bit x i) (halves (a * 2 ^ suc k) (a * 2 ^ k) (mask_double a k))
    ∙ bit_masked_below a k i (omega (arith, h))
  where
    halves : (x y : ℕ) → x ≡ 2 * y → x / 2 ≡ y
    halves x y e = omega (arith, e)

-- A word with the bit set is at least the bit.
set_bit_le : (w b : ℕ) → (bit w b == 0) ≡ false → 2 ^ b ≤ w
set_bit_le w b e = elim (dec_lt w (2 ^ b)) [
  | yes h ↦ absurd (ground (arith, e, bit_above w b h))
  | no h ↦ omega (arith, h)
]

flip_parity : (w b : ℕ) → flip w (suc b) % 2 ≡ w % 2
flip_parity w b = elim (Bool-cases (bit w (suc b) == 0)) [
  | inl e ↦ rw e (omega (arith, two-pow-succ b))
  | inr e ↦ rw e (omega (arith, two-pow-succ b, set_bit_le w (suc b) e))
]

flip_half : (w b : ℕ) → flip w (suc b) / 2 ≡ flip (w / 2) b
flip_half w b = ground (arith, bit_half w b, two-pow-succ b)

flip_first_half : (w : ℕ) → flip w 0 / 2 ≡ w / 2
flip_first_half w = ground (arith, bit_first w)

pub bit_flipped : (w b i : ℕ) → bit (flip w b) i ≡ (if i == b then 1 - bit w b else bit w i)
bit_flipped w zero zero = ground (arith, bit_first (flip w 0), bit_first w)
bit_flipped w zero (suc i) =
    sym (bit_half (flip w 0) i)
    ∙ ap (λ x. bit x i) (flip_first_half w)
    ∙ bit_half w i
    ∙ ground arith
bit_flipped w (suc b) zero =
    bit_first (flip w (suc b)) ∙ flip_parity w b ∙ sym (bit_first w) ∙ ground arith
bit_flipped w (suc b) (suc i) =
    sym (bit_half (flip w (suc b)) i)
    ∙ ap (λ x. bit x i) (flip_half w b)
    ∙ bit_flipped (w / 2) b i
    ∙ ground (arith, bit_half w b, bit_half w i)

pub flip_lt : (w b n : ℕ) → b < n → w < 2 ^ n → flip w b < 2 ^ n
flip_lt w b zero h k = absurd (omega (arith, h))
flip_lt w zero (suc n) h k = ground (arith, k, two-pow-succ n, bit_first w)
flip_lt w (suc b) (suc n) h k = double_lt (flip w (suc b)) (2 ^ n) (2 ^ suc n) (two-pow-succ n) (
    subst (λ x. x < 2 ^ n) (sym (flip_half w b))
      (flip_lt (w / 2) b n (omega (arith, h)) (omega (arith, k, two-pow-succ n))))
  where
    double_lt : (x y z : ℕ) → z ≡ y + y → x / 2 < y → x < z
    double_lt x y z e h = omega (arith, e, h)
