-- ===== src/Channel/Drops.antt =====
-- src/channel.rs: the drop of a `Role` among others ends.
use evering.Base.{
  ℕ, suc, ◌+◌, ◌*◌, ◌/◌, ◌%◌, ◌^◌, ◌≤◌, ◌≡◌, ◌≢◌, refl, ap, ◌∙◌, Bool, true, false, arith,
  update_self,
}
use evering.Atomic.{exec}
use evering.Cells.{Cells, apply}
use evering.Root.Growth.{Words}
use evering.Channel.Roles.{Role, is_mine, drop_role}
use evering.Channel.Release.{
  rank, Gone, is_closed, is_retired, is_advanced, others, LetGo, is_out, is_other, is_released,
  release_lem,
}
use evering.Channel.Ports.{Advances}

-- The words of one role differ in the terminal bit alone.
mine_parts :
    (r : Role) (w : ℕ)
    → is_mine r w ≡ true
    → (w / 2 ^ 7 ≡ r.generation)
      × (w / 2 % 64 ≡ r.owner + 1)
      × (rank w ≡ r.generation * 4 + 1 + w % 2)
mine_parts r w e = (ground (arith, e), ground (arith, e), ground (arith, e))

-- So no third word of a role comes, when each is further on than the one before.
no_third :
    (r : Role) (a b c : ℕ)
    → is_mine r a ≡ true
    → is_mine r b ≡ true
    → is_mine r c ≡ true
    → rank a ≤ rank b
    → rank b ≤ rank c
    → b ≢ a
    → c ≢ b
    → ⊥
no_third r a b c ea eb ec ab bc ne ne' =
    let (ga, oa, ra) = mine_parts r a ea in
    let (gb, ob, rb) = mine_parts r b eb in
    let (gc, oc, rc) = mine_parts r c ec in
    omega (arith, ga, oa, ra, gb, ob, rb, gc, oc, rc, ab, bc, ne, ne')

Gone-other : (r : Role) (raw x : ℕ) → Gone raw x → is_mine r x ≡ false
Gone-other r raw _ (is_closed t) = ground arith
Gone-other r raw _ (is_retired t g) = ground arith
Gone-other r raw _ (is_advanced t g) = ground arith

module _ (env : ℕ → Cells → Cells) (advances : (n : ℕ) (s : Cells) → Advances s (env n s))
    (r : Role) where
  -- The answer, and that the end is not the role's any more.
  abbrev Ended : Bool × Cells → Type 0
  Ended (answer, s) = (answer ≡ true) × (is_mine r (s r.index) ≡ false)

  LetGo-Ended :
      (n rounds : ℕ) (s : Cells) (x : Bool × Cells)
      → 3 ≤ rounds
      → LetGo env (is_mine r) r.index n s rounds x
      → Ended x
  LetGo-Ended n rounds s x three (is_out lost) = absurd (
      no_third r (s r.index) (env n s r.index) (env (suc n) (env n s) r.index)
        (lost 0 (omega (arith, three))).0 (lost 1 (omega (arith, three))).0
        (lost 2 (omega (arith, three))).0 (advances n s r.index)
        (advances (suc n) (env n s) r.index) (lost 0 (omega (arith, three))).1
        (lost 1 (omega (arith, three))).1)
  LetGo-Ended n rounds s x three (is_other k h lost m) = (refl, m)
  LetGo-Ended n rounds s x three (is_released k y h lost m stood gone) = (
    refl,
    ap (λ w. is_mine r w) (update_self (others env n s (suc k)) r.index y)
        ∙ Gone-other r (others env n s k r.index) y gone,
  )

  -- Three rounds are enough for the drop of a role, whatever the others do, as long as they move
  -- no end back and keep words of 64 bits, not counting exchanges that fail spuriously: it ends,
  -- and the end is not the role's any more.
  pub drop_ends :
      ((n : ℕ) (s : Cells) → Words s → Words (env n s))
      → (rounds n : ℕ) (s : Cells) → 3 ≤ rounds
      → Words s
      → let (ended, s') = exec apply env n (drop_role rounds r) s in
        (ended ≡ true) × (is_mine r (s' r.index) ≡ false)
  unfolding drop_role apply
  drop_ends keeps rounds n s three w =
      LetGo-Ended (suc n) rounds (env n s) _ three
        (release_lem env (is_mine r) r.index keeps rounds (suc n) (env n s) (keeps n s w))
