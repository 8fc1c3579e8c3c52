-- ===== src/Talc/Auto.antt =====
-- src/talc.rs: the geometry that `Geometry::auto` finds.
use evering.Base.{
  ℕ, zero, suc, ◌+◌, ◌-◌, ◌*◌, ◌/◌, ◌^◌, ◌≤◌, ◌<◌, ◌≡◌, ◌⊎◌, inl, inr, refl, sym, ap, ◌∙◌, Bool,
  true, false, ltb, leb, if◌then◌else◌, Option, none, some, Result, ok, err, panicked, arith, subst,
  ltb→le, le→ltb, and_then, leb→le, lt→leb,
}
use evering.Pool.Layouts.{ilog2}
use evering.Talc.Geometry.{
  max_divisions_log, word_bits, min_chunk_size, GeometryError, Geometry, min, budget, validate,
  checked, new, candidate, fit_divisions, fit_shift, auto, too_many_bins, max_bins, top_log,
}

-- A candidate of the loops of `auto`, within their bounds.
record Found (max_bins max_log exponential_log : ℕ) (g : Geometry) : Type 0 where
  pub shape : g ≡ candidate max_log exponential_log g.linear_shift g.divisions_log
  pub few : g.bins ≤ max_bins
  pub coarse : g.divisions_log ≤ max_divisions_log

choose :
    (b : Bool) (g : Geometry) (rest : Option Geometry) {f : Geometry}
    → (if b then some g else rest) ≡ some f
    → ((b ≡ true) × (g ≡ f)) ⊎ (rest ≡ some f)
choose true g rest e = inl (refl, ground (arith, e))
choose false g rest e = inr e

Found-candidate :
    (n l x s d : ℕ)
    → d ≤ max_divisions_log
    → leb (candidate l x s d).bins n ≡ true
    → Found n l x (candidate l x s d) × (s ≡ s)
Found-candidate n l x s d h few =
    (record { shape = refl; few = leb→le (candidate l x s d).bins n few; coarse = h }, refl)

fit_divisions_lem :
    (n l x s d : ℕ) {g : Geometry}
    → d ≤ max_divisions_log
    → fit_divisions n l x s d ≡ some g
    → Found n l x g × (g.linear_shift ≡ s)
unfolding fit_divisions
fit_divisions_lem n l x s zero {g} h e =
    elim (choose (leb (candidate l x s 0).bins n) (candidate l x s 0) none e) [
      | inl (few, same) ↦
          subst (λ z. Found n l x z × (z.linear_shift ≡ s)) same (Found-candidate n l x s 0 h few)
      | inr lost ↦ absurd (ground (arith, lost))
    ]
fit_divisions_lem n l x s (suc d) {g} h e =
    elim (choose (leb (candidate l x s (suc d)).bins n) (candidate l x s (suc d))
      (fit_divisions n l x s d) e) [
        | inl (few, same) ↦
            subst (λ z. Found n l x z × (z.linear_shift ≡ s)) same
              (Found-candidate n l x s (suc d) h few)
        | inr later ↦ fit_divisions_lem n l x s d (omega (arith, h)) later
      ]

first_some :
    (a b : Option Geometry) {g : Geometry}
    → (elim a [ some z ↦ some z | none ↦ b ]) ≡ some g
    → (a ≡ some g) ⊎ (b ≡ some g)
first_some none b e = inr e
first_some (some z) b e = inl e

fit_shift_lem :
    (n l x left s : ℕ) {g : Geometry}
    → fit_shift n l x left s ≡ some g
    → Found n l x g × (g.linear_shift < s + left)
unfolding fit_shift
fit_shift_lem n l x zero s e = absurd (ground (arith, e))
fit_shift_lem n l x (suc left) s {g} e =
    elim (first_some (fit_divisions n l x s max_divisions_log) (fit_shift n l x left (suc s)) e) [
      | inl now ↦
          let (f, same) = fit_divisions_lem n l x s max_divisions_log (omega arith) now in
          (f, omega (arith, same))
      | inr later ↦
          let (f, below) = fit_shift_lem n l x left (suc s) later in (f, omega (arith, below))
    ]

-- `new` passes its own tests on what `auto` tries.
new-candidate :
    (extent s x d : ℕ)
    → min_chunk_size ≤ extent
    → s ≤ x
    → x < 64
    → x ≤ ilog2 extent
    → d ≤ max_divisions_log
    → (candidate (ilog2 extent) x s d).bins ≤ 2 ^ 16 - 1
    → new extent s x d ≡ checked (candidate (ilog2 extent) x s d) extent
unfolding new
new-candidate extent s x d h1 h2 h3 h4 h5 h6 =
    rw
      (
        le→ltb extent min_chunk_size h1,
        le→ltb x s h2,
        lt→leb x 64 h3,
        le→ltb (ilog2 extent) x h4,
        le→ltb max_divisions_log d h5,
        le→ltb (2 ^ 16 - 1) (candidate (ilog2 extent) x s d).bins h6,
      )
      refl

checked_ok :
    (g : Geometry) (extent : ℕ) {f : Geometry}
    → checked g extent ≡ ok f
    → (g ≡ f) × (validate g extent ≡ ok tt)
checked_ok g extent e = go (validate g extent) e
  where
    go :
        (v : Result (Unit {0}) GeometryError) {f : Geometry}
        → and_then v (λ _. ok g) ≡ ok f
        → (g ≡ f) × (v ≡ ok tt)
    go (ok u) e = (ground (arith, e), refl)
    go (err x) e = absurd (ground (arith, e))
    go panicked e = absurd (ground (arith, e))

auto_found :
    (extent : ℕ) (x : Option Geometry) {g : Geometry}
    → (elim x [ some z ↦ checked z extent | none ↦ err too_many_bins ]) ≡ ok g
    → (x ≡ some g) × (validate g extent ≡ ok tt)
auto_found extent none e = absurd (ground (arith, e))
auto_found extent (some z) e =
    let (same, good) = checked_ok z extent e in
    (ap some same, subst (λ y. validate y extent ≡ ok tt) same good)

if_not :
    (b : Bool) (x y : Result Geometry GeometryError) {g : Geometry} {w : GeometryError}
    → x ≡ err w
    → (if b then x else y) ≡ ok g
    → (b ≡ false) × (y ≡ ok g)
if_not true x y k e = absurd (ground (arith, sym k ∙ e))
if_not false x y k e = (refl, e)

budget_bins :
    (b n : ℕ)
    → n ≤ min (min (b * 8 / 129) (word_bits * word_bits)) (2 ^ 16 - 1)
    → (n * 129 ≤ b * 8) × (n ≤ 2 ^ 16 - 1)
budget_bins b n h = ground (arith, h)

min_bounds : (a b : ℕ) → (min a b ≤ a) × (min a b ≤ b)
min_bounds a b = (ground arith, ground arith)

-- A geometry that `auto` answers for an extent is the one that `new` makes of its shift, its
-- logarithm and its divisions; it passes `validate`, and at 129 bits a class it fits the budget of
-- the extent.
pub auto_lem :
    (extent : ℕ) (g : Geometry)
    → auto extent ≡ ok g
    → (new extent g.linear_shift g.exponential_log g.divisions_log ≡ ok g)
      × (validate g extent ≡ ok tt)
      × (g.bins * 129 ≤ budget extent * 8)
unfolding auto
auto_lem extent g e =
    let (large, rest) = if_not (ltb extent min_chunk_size) _ _ refl e in
    let (found, good) = auto_found extent _ rest in
    let (f, shift) = fit_shift_lem (max_bins extent) (ilog2 extent) (top_log extent) _ _ found in
    let (room, narrow) = budget_bins (budget extent) g.bins f.few in
    let top = top_log extent in
    let (below, ten) = min_bounds (ilog2 extent) 10 in
    let inside : g.linear_shift ≤ top = omega (arith, shift, (min_bounds 4 top).1) in
    (
      ap (λ x. new extent g.linear_shift x g.divisions_log) (ap (λ z. z.exponential_log) f.shape)
          ∙ new-candidate extent g.linear_shift top g.divisions_log
              (ltb→le extent min_chunk_size large) inside (omega (arith, ten)) below f.coarse
              (subst (λ z. z.bins ≤ 2 ^ 16 - 1) f.shape narrow)
          ∙ ap (λ z. checked z extent) (sym f.shape)
          ∙ ap (λ v. and_then v (λ _. ok g)) good,
      good,
      room,
    )
