-- ===== src/Chains.antt =====
-- `do` blocks for chains of `Option`, Rust's `?` on an error that says nothing.
use evering.Base.{Option, none, some, ◌≡◌, arith, refl}

infixl 5 ◌>>=◌
abbrev pub ◌>>=◌ {ℓ κ} : {A : Type ℓ} {B : Type κ} → Option A → (A → Option B) → Option B
none >>= f = none
some a >>= f = f a

-- A chain that answers has a first link that answers.
pub bind-some {ℓ κ} :
    {A : Type ℓ} {B : Type κ} (x : Option A) (f : A → Option B) {b : B}
    → x >>= f ≡ some b
    → (a : A) × (x ≡ some a) × (f a ≡ some b)
bind-some none f e = absurd (ground (arith, e))
bind-some (some a) f e = (a, refl, e)
