-- ===== src/Talc/Bins.antt =====
-- src/talc.rs: the classes of `Geometry::bin` are ordered as the sizes are.
use evering.Base.{
  pow-add, two-pow-pos, ℕ, zero, suc, ◌+◌, ◌-◌, ◌*◌, ◌/◌, ◌^◌, ◌≤◌, ◌<◌, ◌≡◌, inl, inr, ap, ◌∙◌,
  ltb, arith, dec_lt, Bool-cases, subst, ltb→lt, ltb→le, le→ltb,
}
use native.Mathlib.Nat.{
  two-pow-succ, pow-le-pow_right, div-lt_iff_lt-mul, div-mul-le_self, mul-le-mul_right,
  le-div_iff_mul-le,
}
use evering.Pool.Layouts.{ilog2, log_from}
use evering.Talc.Geometry.{Geometry, divisions, max, min, exponential_bin, bin_index, bin}

double : (n : ℕ) → 2 ^ (n + 1) ≡ 2 ^ n + 2 ^ n
double n = ap (λ k. 2 ^ k) (omega arith) ∙ two-pow-succ n

halved : (n l : ℕ) → 2 ^ l ≤ n / 2 → n / 2 < 2 ^ (l + 1) → (2 ^ (l + 1) ≤ n) × (n < 2 ^ (l + 1 + 1))
halved n l h k = (omega (arith, h, double l), omega (arith, k, double (l + 1)))

-- What the logarithm is: the place of the highest bit.
log_from_lem :
    (left n : ℕ)
    → 0 < n
    → n < 2 ^ left
    → (2 ^ log_from left n ≤ n) × (n < 2 ^ (log_from left n + 1))
unfolding log_from
log_from_lem zero n h k = absurd (omega (arith, h, k))
log_from_lem (suc left) n h k = elim (Bool-cases (ltb n 2)) [
  | inl e ↦ rw (e) (omega (arith, h), ltb→lt n 2 e)
  | inr e ↦
      let big = ltb→le n 2 e in
      let (a, b) =
        log_from_lem left (n / 2) (omega (arith, big)) (omega (arith, k, two-pow-succ left)) in
      rw (e) (halved n (log_from left (n / 2)) a b)
]

ilog2_lem : (n : ℕ) → 0 < n → n < 2 ^ 64 → (2 ^ ilog2 n ≤ n) × (n < 2 ^ (ilog2 n + 1))
unfolding ilog2
ilog2_lem n h k = log_from_lem 64 n h k

pow_below : (a b : ℕ) → 2 ^ a < 2 ^ (b + 1) → a ≤ b
pow_below a b h = elim (dec_lt b a) [
  | yes k ↦ absurd (
      omega
        (arith, h, pow-le-pow_right {n = 2} (omega arith) {i = b + 1} {j = a} (omega (arith, k))))
  | no k ↦ omega (arith, k)
]

ilog2_le : (a b : ℕ) → 0 < a → a ≤ b → b < 2 ^ 64 → ilog2 a ≤ ilog2 b
ilog2_le a b h k l =
    let (p, q) = ilog2_lem a h (omega (arith, k, l)) in
    let (p', q') = ilog2_lem b (omega (arith, h, k)) l in
    pow_below (ilog2 a) (ilog2 b) (omega (arith, p, k, q'))

div_le : (a b d : ℕ) → 0 < d → a ≤ b → a / d ≤ b / d
div_le a b d h k = (le-div_iff_mul-le h).1 (omega (arith, div-mul-le_self a d, k))

below_product : (x p d : ℕ) → 0 < d → x < p → x * d < d * p
below_product x p d h k =
    grind (arith, h, mul-le-mul_right {m = x + 1} {n = p} d (omega (arith, k)))

-- The place in an octave is below the number of divisions.
division_lt :
    (size octave d : ℕ)
    → 0 < d
    → 2 ^ octave ≤ size
    → size < 2 ^ (octave + 1)
    → (size - 2 ^ octave) * d / 2 ^ octave < d
division_lt size octave d h lo hi =
    (div-lt_iff_lt-mul (two-pow-pos octave)).1
      (below_product (size - 2 ^ octave) (2 ^ octave) d h (omega (arith, hi, lo, double octave)))

-- One octave further is at least all divisions further.
octaves_le : (linear x y d u v : ℕ) → x < y → u < d → linear + x * d + u ≤ linear + y * d + v
octaves_le linear x y d u v h k =
    grind (arith, k, mul-le-mul_right {m = x + 1} {n = y} d (omega (arith, h)))

octave_le :
    (linear x o a b d : ℕ)
    → a ≤ b
    → linear + x * d + (a - 2 ^ o) * d / 2 ^ o ≤ linear + x * d + (b - 2 ^ o) * d / 2 ^ o
octave_le linear x o a b d h = omega (
  arith,
  div_le ((a - 2 ^ o) * d) ((b - 2 ^ o) * d) (2 ^ o) (two-pow-pos o)
      (mul-le-mul_right {m = a - 2 ^ o} {n = b - 2 ^ o} d (omega (arith, h))),
)

exponential_le :
    (g : Geometry) (a b : ℕ)
    → 2 ^ g.exponential_log ≤ a
    → a ≤ b
    → b < 2 ^ 64
    → exponential_bin g (ilog2 a) a ≤ exponential_bin g (ilog2 b) b
unfolding exponential_bin
exponential_le g a b h k l =
    let low : 0 < a = omega (arith, h, two-pow-pos g.exponential_log) in
    let (p, q) = ilog2_lem a low (omega (arith, k, l)) in
    let start : g.exponential_log ≤ ilog2 a =
      pow_below g.exponential_log (ilog2 a) (omega (arith, h, q)) in
    elim (dec_lt (ilog2 a) (ilog2 b)) [
      | yes less ↦
          octaves_le g.linear (ilog2 a - g.exponential_log) (ilog2 b - g.exponential_log)
            (divisions g) _ _ (omega (arith, less, start))
            (division_lt a (ilog2 a) (divisions g) (two-pow-pos g.divisions_log) p q)
      | no more ↦
          subst (λ o. exponential_bin g (ilog2 a) a ≤ exponential_bin g o b)
            (omega (arith, more, ilog2_le a b low k l))
            (octave_le g.linear (ilog2 a - g.exponential_log) (ilog2 a) a b (divisions g) k)
    ]

-- The sizes below the octaves take the classes below the octaves'.
linear_lt :
    (g : Geometry) (a : ℕ)
    → g.linear ≡ 2 ^ (g.exponential_log - g.linear_shift)
    → g.linear_shift ≤ g.exponential_log
    → a < 2 ^ g.exponential_log
    → (a - 1) / 2 ^ g.linear_shift < g.linear
linear_lt g a e h k =
    let split : g.exponential_log ≡ g.exponential_log - g.linear_shift + g.linear_shift =
      omega (arith, h) in
    let whole : 2 ^ g.exponential_log
        ≡ 2 ^ (g.exponential_log - g.linear_shift) * 2 ^ g.linear_shift =
      ap (λ n. 2 ^ n) split ∙ pow-add (g.exponential_log - g.linear_shift) g.linear_shift in
    rw (e) (
      (div-lt_iff_lt-mul (two-pow-pos g.linear_shift)).1
        (omega (arith, k, whole, two-pow-pos g.exponential_log)))

bin_index_le :
    (g : Geometry) (a b : ℕ)
    → g.linear ≡ 2 ^ (g.exponential_log - g.linear_shift)
    → g.linear_shift ≤ g.exponential_log
    → a ≤ b
    → b < 2 ^ 64
    → bin_index g a ≤ bin_index g b
unfolding bin_index exponential_bin
bin_index_le g a b e h k l = elim (Bool-cases (ltb a (2 ^ g.exponential_log))) [
  | inl x ↦ elim (Bool-cases (ltb b (2 ^ g.exponential_log))) [
    | inl y ↦
        rw (x, y)
          (div_le (a - 1) (b - 1) (2 ^ g.linear_shift) (two-pow-pos g.linear_shift)
            (omega (arith, k)))
    | inr y ↦ rw (x, y) (omega (arith, linear_lt g a e h (ltb→lt a (2 ^ g.exponential_log) x)))
  ]
  | inr x ↦
      rw
        (x, le→ltb b (2 ^ g.exponential_log) (omega (arith, k, ltb→le a (2 ^ g.exponential_log) x)))
        (exponential_le g a b (ltb→le a (2 ^ g.exponential_log) x) k l)
]

min_le : (x y c : ℕ) → x ≤ y → min x c ≤ min y c
min_le x y c h = ground (arith, h)

min_lt : (y n : ℕ) → 0 < n → min y (n - 1) < n
min_lt y n h = ground (arith, h)

max_le : (a b : ℕ) → a ≤ b → max a 1 ≤ max b 1
max_le a b h = ground (arith, h)

max_fits : (b : ℕ) → b < 2 ^ 64 → max b 1 < 2 ^ 64
max_fits b h = ground (arith, h)

-- For a geometry of at least one class whose linear classes are as many as its shift and its
-- logarithm say: a size of 64 bits has a class below the number of classes, and no smaller size
-- has a higher one.
pub bin_monotone :
    (g : Geometry) (a b : ℕ)
    → 0 < g.bins
    → g.linear ≡ 2 ^ (g.exponential_log - g.linear_shift)
    → g.linear_shift ≤ g.exponential_log
    → a ≤ b
    → b < 2 ^ 64
    → (bin g a ≤ bin g b) × (bin g b < g.bins)
unfolding bin
bin_monotone g a b some_bin e h k l = (
  min_le (bin_index g (max a 1)) (bin_index g (max b 1)) (g.bins - 1)
      (bin_index_le g (max a 1) (max b 1) e h (max_le a b k) (max_fits b l)),
  min_lt (bin_index g (max b 1)) g.bins some_bin,
)
