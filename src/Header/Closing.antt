-- ===== src/Header/Closing.antt =====
-- src/header.rs: who may still use a header. `close_unique`, `claim`, `leave` and `recover_member` by a
-- lone participant.
use native.Mathlib.Nat.{two-pow-succ, mul-div_cancel, pow-le-pow_right, add-div_right}
use evering.Base.{
  pow-add, two-pow-pos, ℕ, ◌+◌, ◌/◌, ◌%◌, ◌^◌, ◌<◌, ◌≡◌, ◌≢◌, refl, arith, true, false, some, ok,
  err, update, suc, ◌-◌, ap, ◌∙◌,
}
use evering.Atomic.{run}
use evering.Cells.{Cells, apply}
use evering.Header.Fields.{members, AdmitError, CloseError}
use evering.Header.Membership.{
  closed_bit, has_bit, close_unique, claim, leave, recover_member, has_member, closed_at,
}

even_pow : (n : ℕ) → 2 ^ suc n % 2 ≡ 0
even_pow n = omega (arith, two-pow-succ n)

low_bit : (slot : ℕ) → slot < closed_bit → 2 ^ closed_bit / 2 ^ slot % 2 ≡ 0
low_bit slot h =
    ap (λ k. k / 2 ^ slot % 2) (ap (λ k. 2 ^ k) split ∙ pow-add (suc (62 - slot)) slot)
    ∙ ap (λ k. k % 2) (mul-div_cancel (2 ^ suc (62 - slot)) (two-pow-pos slot))
    ∙ even_pow (62 - slot)
  where
    split : closed_bit ≡ suc (62 - slot) + slot
    split = omega (arith, h)

lower : (slot : ℕ) → slot < closed_bit → 2 ^ slot ≢ 2 ^ closed_bit
lower slot h e =
    omega (arith, e, pow-le-pow_right {n = 2} (omega arith) {i = slot} {j = 62} (omega (arith, h)))

-- When a slot below 63 is the only member, `close_unique` of it succeeds, and then the header is
-- closed for good: it is reported closed, the slot is no member, and neither a claim of any slot
-- nor a second closing succeeds or changes the word.
pub close_lem :
    (slot other : ℕ) (s : Cells)
    → slot < closed_bit
    → s members ≡ 2 ^ slot
    → let shut = update s members (2 ^ closed_bit) in
      (run apply (close_unique slot) s ≡ (ok tt, shut))
      × (run apply closed_at shut ≡ (true, shut))
      × (run apply (has_member slot) shut ≡ (false, shut))
      × (run apply (claim (some other)) shut ≡ (err AdmitError.closed, shut))
      × (run apply (close_unique slot) shut ≡ (err CloseError.closed, shut))
unfolding close_unique claim closed_at has_member apply
close_lem slot other s h e =
    (ground (arith, e), refl, ground (arith, low_bit slot h), refl, ground (arith, lower slot h))

flipped : (x slot : ℕ) → has_bit x slot ≡ false → has_bit (x + 2 ^ slot) slot ≡ true
flipped x slot k = ground (arith, k, add-div_right x (two-pow-pos slot))

-- On an open header, `claim` of a slot that is no member makes it one, and `leave` and
-- `recover_member` take back just what `claim` gave.
pub claim-leave :
    (slot : ℕ) (s : Cells)
    → has_bit (s members) closed_bit ≡ false
    → has_bit (s members) slot ≡ false
    → let joined = update s members (s members + 2 ^ slot) in
      (run apply (claim (some slot)) s ≡ (ok (some slot), joined))
      × (run apply (has_member slot) joined ≡ (true, joined))
      × ((run apply (leave slot) joined).1 members ≡ s members)
      × ((run apply (recover_member slot) joined).0 ≡ true)
      × ((run apply (recover_member slot) joined).1 members ≡ s members)
unfolding claim has_member leave recover_member apply
claim-leave slot s h k = (
  ground (arith, h, k),
  ground (arith, flipped (s members) slot k),
  ground (arith, flipped (s members) slot k),
  ground (arith, flipped (s members) slot k),
  ground (arith, flipped (s members) slot k),
)
