-- ===== src/Base/Powers.antt =====
-- Powers of two.
use native.Mathlib.Nat.{two-pow-succ, one-le-pow, add-zero, add-suc}
use Prim.Native.Nat.{ℕ, zero, suc, ◌+◌, ◌*◌, ◌^◌, ◌<◌}
use mathlib.Core.Path.{◌≡◌, ap, ◌∙◌, sym}
use native.Mathlib.Omega.{arith}

doubled : (a b c : ℕ) → a ≡ b * c → a + a ≡ b * (c + c)
doubled a b c e = grind (arith, e)

pub pow-add : (d n : ℕ) → 2 ^ (d + n) ≡ 2 ^ d * 2 ^ n
pow-add d zero = ap (λ k. 2 ^ k) (add-zero d) ∙ omega arith
pow-add d (suc n) =
    ap (λ k. 2 ^ k) (add-suc d n)
    ∙ two-pow-succ (d + n)
    ∙ doubled (2 ^ (d + n)) (2 ^ d) (2 ^ n) (pow-add d n)
    ∙ ap (λ k. 2 ^ d * k) (sym (two-pow-succ n))

pub two-pow-pos : (n : ℕ) → 0 < 2 ^ n
two-pow-pos n = one-le-pow n 2 (omega arith)
