-- ===== src/Pool/Search.antt =====
-- src/pool.rs, the bisection of `Geometry::create`.
use evering.Base.{
  ℕ, zero, suc, ◌+◌, ◌-◌, ◌/◌, ◌^◌, ◌≤◌, ◌<◌, ◌≡◌, ◌⊎◌, inl, inr, arith, Bool, true, false, dec_lt,
  Bool-cases, subst,
}
use evering.Pool.Geometry.{search}

module _ (fits : ℕ → Bool) where
  stop : (rounds low high : ℕ) → high ≤ low + 1 → search fits (suc rounds) low high ≡ low
  unfolding search
  stop rounds low high h = ground (arith, h)

  up :
      (rounds low high : ℕ)
      → low + 1 < high
      → fits (low + (high - low) / 2) ≡ true
      → search fits (suc rounds) low high ≡ search fits rounds (low + (high - low) / 2) high
  unfolding search
  up rounds low high h e = ground (arith, h, e)

  down :
      (rounds low high : ℕ)
      → low + 1 < high
      → fits (low + (high - low) / 2) ≡ false
      → search fits (suc rounds) low high ≡ search fits rounds low (low + (high - low) / 2)
  unfolding search
  down rounds low high h e = ground (arith, h, e)

  ended :
      (low high bound : ℕ)
      → (fits high ≡ false) ⊎ (bound ≤ high)
      → high ≡ low + 1
      → (fits (low + 1) ≡ false) ⊎ (bound ≤ low + 1)
  ended low high bound g e = subst (λ n. (fits n ≡ false) ⊎ (bound ≤ n)) e g

  -- From a count that fits and a greater one that does not fit or is at the bound or beyond it,
  -- the bisection of `create` ends at a count that fits, no smaller, and whose successor does not
  -- fit, or is the bound or beyond it; as many rounds as the distance has bits are enough.
  pub search_lem :
      (rounds low high bound : ℕ)
      → fits low ≡ true
      → (fits high ≡ false) ⊎ (bound ≤ high)
      → low < high
      → high ≤ low + 2 ^ rounds
      → let found = search fits rounds low high in
        (fits found ≡ true) × (low ≤ found) × ((fits (found + 1) ≡ false) ⊎ (bound ≤ found + 1))
  unfolding search
  search_lem zero low high bound f g l h =
      (f, omega arith, ended low high bound g (omega (arith, l, h)))
  search_lem (suc rounds) low high bound f g b h = elim (dec_lt (low + 1) high) [
    | no n ↦
        rw (stop rounds low high (omega (arith, n)))
          (f, omega arith, ended low high bound g (omega (arith, b, n)))
    | yes l ↦ elim (Bool-cases (fits (low + (high - low) / 2))) [
      | inl e ↦
          let (a, b, c) =
            search_lem rounds (low + (high - low) / 2) high bound e g (omega (arith, l))
              (omega (arith, h)) in
          rw (up rounds low high l e) (a, omega (arith, b), c)
      | inr e ↦ rw (down rounds low high l e) (
          search_lem rounds low (low + (high - low) / 2) bound f (inl e) (omega (arith, l))
            (omega (arith, h)))
    ]
  ]
