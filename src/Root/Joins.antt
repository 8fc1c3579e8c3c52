-- ===== src/Root/Joins.antt =====
-- src/header.rs, `Root::join` while other participants act: what it hands out is new.
use evering.Base.{
  ℕ, zero, suc, ◌+◌, ◌*◌, ◌≤◌, ◌<◌, ◌≡◌, ◌≢◌, arith, ap, Option, none, some, update, ◌%◌, ◌^◌,
  ℕ_discrete, update_self, subst,
}
use evering.Atomic.{exec}
use evering.Cells.{Cells, apply, swap}
use evering.Root.Ops.{
  Member, generation_of, word, join_from, join, member_live, member_generation_max,
  participant_capacity, state_of, member_free, member_retired,
}
use evering.Root.Growth.{Grows, Grows-refl, Grows-trans, Grows-update, Words, IsFair}

-- What `join` over `left` slots from `slot` on may answer, and leave behind, having begun on `s`.
pub data Joined (left slot : ℕ) (s : Cells) : Option Member × Cells → Type 0 where
  is_none : {s' : Cells} → Grows s s' → Joined left slot s (none, s')
  is_some :
      {m : Member} {s' : Cells}
      → Grows s s'
      → slot ≤ m.slot
      → m.slot < slot + left
      → generation_of (s m.slot) < m.generation
      → m.generation ≤ member_generation_max
      → s' m.slot ≡ word m member_live
      → Joined left slot s (some m, s')

module _ {left slot : ℕ} where
  earlier :
      {s s' : Cells} {r : Option Member × Cells}
      → Grows s s'
      → Joined left (slot + 1) s' r
      → Joined (suc left) slot s r
  earlier {s} {s'} g (is_none h) = is_none (Grows-trans s s' _ g h)
  earlier {s} {s'} g (is_some {m} h a b c d e) =
      is_some (Grows-trans s s' _ g h) (omega (arith, a)) (omega (arith, b))
        (omega (arith, c, g m.slot)) d e

-- Others may act before every access.
module _ (env : ℕ → Cells → Cells) (left slot n : ℕ) (s : Cells) where
  abbrev found : Cells
  found = env n s

  abbrev before_swap : Cells
  before_swap = env (suc n) found

  taken :
      state_of (found slot) ≢ member_free
      → exec apply env n (join_from (suc left) slot) s
        ≡ exec apply env (suc n) (join_from left (slot + 1)) found
  unfolding join_from apply
  taken h = ground arith

  worn :
      state_of (found slot) ≡ member_free
      → generation_of (found slot) ≡ member_generation_max
      → exec apply env n (join_from (suc left) slot) s
        ≡ exec apply env
            (suc (suc n))
            (join_from left (slot + 1))
            (apply
              (swap slot (found slot) (generation_of (found slot) * 4 + member_retired))
              before_swap).1
  unfolding join_from apply
  worn h w = ground arith

  lost :
      state_of (found slot) ≡ member_free
      → generation_of (found slot) ≢ member_generation_max
      → before_swap slot ≢ found slot
      → exec apply env n (join_from (suc left) slot) s
        ≡ exec apply env (suc (suc n)) (join_from left (slot + 1)) before_swap
  unfolding join_from apply
  lost h w l = ground arith

  won :
      state_of (found slot) ≡ member_free
      → generation_of (found slot) ≢ member_generation_max
      → before_swap slot ≡ found slot
      → exec apply env n (join_from (suc left) slot) s ≡ (
        some (record { slot = slot; generation = generation_of (found slot) + 1 }),
        update before_swap slot ((generation_of (found slot) + 1) * 4 + member_live),
      )
  unfolding join_from apply
  won h w l = ground arith

retired_word : ℕ → ℕ
retired_word x = generation_of x * 4 + member_retired

retire-Grows :
    (s : Cells) (slot x : ℕ) → x % 4 ≡ 0 → Grows s (apply (swap slot x (retired_word x)) s).1
unfolding apply retired_word
retire-Grows s slot x f i = ground (arith, f)

retire-Words :
    (s : Cells) (slot x : ℕ)
    → x < 2 ^ 64
    → Words s
    → Words (apply (swap slot x (retired_word x)) s).1
unfolding apply retired_word
retire-Words s slot x h w i = ground (arith, h, w i)

-- 2 ^ 62 - 1 is the greatest generation that a word of 64 bits holds.
bounded : (g : ℕ) → g < 2 ^ 62 → g ≢ member_generation_max → g + 1 ≤ member_generation_max
bounded g h e = omega (arith, e)

module _ (env : ℕ → Cells → Cells) (fair : IsFair env) where
  join_from_lem :
      (left slot n : ℕ) (s : Cells)
      → Words s
      → Joined left slot s (exec apply env n (join_from left slot) s)
  unfolding join_from retired_word
  join_from_lem zero slot n s v = is_none (Grows-refl s)
  join_from_lem (suc left) slot n s v =
      let s1 = env n s in
      let s2 = env (suc n) s1 in
      let v1 = fair.words n s v in
      let v2 = fair.words (suc n) s1 v1 in
      let both = Grows-trans s s1 s2 (fair.grows n s) (fair.grows (suc n) s1) in
      elim (ℕ_discrete (state_of (s1 slot)) member_free) [
        | no f ↦
            rw (taken env left slot n s f)
              (earlier (fair.grows n s) (join_from_lem left (slot + 1) (suc n) s1 v1))
        | yes f ↦ elim (ℕ_discrete (generation_of (s1 slot)) member_generation_max) [
          | yes w ↦ rw (worn env left slot n s f w) (
              earlier (Grows-trans s s2 _ both (retire-Grows s2 slot (s1 slot) f)) (
                join_from_lem left (slot + 1) (suc (suc n)) _
                  (retire-Words s2 slot (s1 slot) (v1 slot) v2)))
          | no w ↦ elim (ℕ_discrete (s2 slot) (s1 slot)) [
            | no l ↦
                rw (lost env left slot n s f w l)
                  (earlier both (join_from_lem left (slot + 1) (suc (suc n)) s2 v2))
            | yes l ↦ rw (won env left slot n s f w l) (
                is_some (Grows-trans s s2 _ both (Grows-update s2 slot _ (omega (arith, l))))
                  (omega arith) (omega arith) (omega (arith, fair.grows n s slot))
                  (bounded _ (omega (arith, v1 slot)) w) (update_self s2 slot _))
          ]
        ]
      ]

  -- `join` from words of 64 bits, among others that lower no generation and keep such words: the
  -- member it hands out has a generation above the one that its slot had at the start and at most
  -- the greatest, its slot is one of the 63, its word ends up live with that generation, and no
  -- generation is lowered, whether it hands out a member or none.
  pub join_lem :
      (n : ℕ) (s : Cells) → Words s → Joined participant_capacity 0 s (exec apply env n join s)
  unfolding join
  join_lem n s v = join_from_lem participant_capacity 0 n s v

-- What `join` knows of the member it hands out.
joined_new :
    {left slot : ℕ} {s s' : Cells} {m : Member}
    → Joined left slot s (some m, s')
    → (generation_of (s m.slot) < m.generation) × (s' m.slot ≡ word m member_live)
joined_new (is_some g a b c d e) = (c, e)

live_word : (m : Member) → generation_of (word m member_live) ≡ m.generation
live_word m = omega arith

differ :
    {left slot : ℕ} {s a s' b : Cells} {m m' : Member}
    → Joined left slot s (some m, a)
    → Grows a s'
    → Joined left slot s' (some m', b)
    → m ≢ m'
differ {a = a} {s' = s'} {m = m} {m' = m'} j g k e = omega (
  arith,
  (joined_new k).0,
  g m.slot,
  live_word m,
  ap generation_of (joined_new j).1,
  ap (λ x. x.generation) e,
  ap (λ x. generation_of (s' x.slot)) e,
)

module _ (env : ℕ → Cells → Cells) (fair : IsFair env) where
  -- A member that `join` handed out is never handed out again: the member of a later `join`, by
  -- whomever, is another one, when others lower no generation during the calls and in between and
  -- the words have 64 bits.
  pub joins_differ :
      (n n' : ℕ) (s a s' b : Cells) (m m' : Member)
      → Words s
      → exec apply env n join s ≡ (some m, a)
      → Grows a s'
      → Words s'
      → exec apply env n' join s' ≡ (some m', b)
      → m ≢ m'
  joins_differ n n' s a s' b m m' v e g v' f =
      differ (subst (Joined participant_capacity 0 s) e (join_lem env fair n s v)) g
        (subst (Joined participant_capacity 0 s') f (join_lem env fair n' s' v'))
