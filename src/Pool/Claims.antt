-- ===== src/Pool/Claims.antt =====
-- src/pool.rs, `PoolRef::claim` while other participants act: the block that it hands out is new.
use native.Mathlib.Nat.{mod-lt}
use evering.Base.{
  ℕ, zero, suc, ◌+◌, ◌%◌, ◌≤◌, ◌<◌, ◌≡◌, ◌≢◌, ◌⊎◌, inl, inr, arith, Bool, true, false, update,
  update_self, ◌&&◌, not, dec_lt, Bool-cases, ℕ_discrete,
}
use evering.Atomic.{exec}
use evering.Cells.{Cells, apply}
use evering.Root.Ops.{participant_capacity}
use evering.Pool.State.{local, local_word, generation_of, max_generation, canonical, is_allocated}
use evering.Pool.Geometry.{Class, control_at, payload_at}
use evering.Pool.Blocks.{probe_from, Probe, taken, missed, Allocation}

-- No generation is lower than it was.
abbrev pub Ages : Cells → Cells → Type 0
Ages s s' = (i : ℕ) → generation_of (s i) ≤ generation_of (s' i)

-- What the probes of a class may answer, having begun on `s`.
pub data Probed (owner : ℕ) (c : Class) (s : Cells) : Probe × Cells → Type 0 where
  is_missed : {s' : Cells} → Ages s s' → Probed owner c s (missed, s')
  is_taken :
      {a : Allocation} {s' : Cells}
      → Ages s s'
      → a.slot < c.slots
      → generation_of (s (control_at c a.slot)) < a.generation
      → a.generation ≤ max_generation
      → s' (control_at c a.slot) ≡ local_word a.generation owner
      → Probed owner c s (taken a (payload_at c a.slot), s')

module _ (env : ℕ → Cells → Cells) (owner : ℕ) (c : Class) (class start left probe n : ℕ)
    (s : Cells) where
  abbrev slot : ℕ
  slot = (start + probe) % c.slots

  abbrev place : ℕ
  place = control_at c slot

  abbrev found : Cells
  found = env n s

  abbrev before_swap : Cells
  before_swap = env (suc n) found

  -- The word may be taken: canonical and not allocated.
  abbrev is_open : Bool
  is_open = canonical (found place) && not (is_allocated (found place))

  passed :
      (max_generation ≤ generation_of (found place)) ⊎ (is_open ≡ false)
      → exec apply env n (probe_from owner c class start (suc left) probe) s
        ≡ exec apply env (suc n) (probe_from owner c class start left (probe + 1)) found
  unfolding probe_from local apply
  passed h = ground arith

  lost :
      generation_of (found place) < max_generation
      → before_swap place ≢ found place
      → is_open ≡ true
      → owner < participant_capacity
      → exec apply env n (probe_from owner c class start (suc left) probe) s
        ≡ exec apply env (suc (suc n)) (probe_from owner c class start left (probe + 1)) before_swap
  unfolding probe_from local apply
  lost h l e ho = ground (arith, h, l, e, ho)

  won :
      generation_of (found place) < max_generation
      → before_swap place ≡ found place
      → is_open ≡ true
      → owner < participant_capacity
      → exec apply env n (probe_from owner c class start (suc left) probe) s ≡ (
        taken
            (record {
              class = class;
              slot = slot;
              generation = generation_of (found place) + 1;
              live = true;
            })
            (payload_at c slot),
        update before_swap place (local_word (generation_of (found place) + 1) owner),
      )
  unfolding probe_from local apply
  won h l e ho = ground (arith, h, l, e, ho)

Ages-trans : (a b c : Cells) → Ages a b → Ages b c → Ages a c
Ages-trans a b c f g i = omega (arith, f i, g i)

Ages-update : (s : Cells) (i x : ℕ) → generation_of (s i) ≤ generation_of x → Ages s (update s i x)
Ages-update s i x h j = ground (arith, h)

aged : (g owner : ℕ) → owner < 63 → generation_of (local_word g owner) ≡ g
aged g owner h = omega arith

module _ {owner : ℕ} {c : Class} where
  earlier :
      {s s' : Cells} {r : Probe × Cells} → Ages s s' → Probed owner c s' r → Probed owner c s r
  earlier {s} {s'} g (is_missed h) = is_missed (Ages-trans s s' _ g h)
  earlier {s} {s'} g (is_taken {a} h b k d e) =
      is_taken (Ages-trans s s' _ g h) b (omega (arith, k, g (control_at c a.slot))) d e

module _ (env : ℕ → Cells → Cells) (ages : (n : ℕ) (s : Cells) → Ages s (env n s)) where
  -- The probes of a class of at least one slot by a participant, among others that lower no
  -- generation: a block that they answer is one of the class, its generation is above the one that
  -- its word had at the start and at most the greatest, its word ends up local to the owner with
  -- that generation, and no generation is lowered, whether they answer a block or none.
  pub probe_lem :
      (owner : ℕ) (c : Class) (class start left probe n : ℕ) (s : Cells)
      → owner < participant_capacity
      → 0 < c.slots
      → Probed owner c s (exec apply env n (probe_from owner c class start left probe) s)
  unfolding probe_from
  probe_lem owner c class start zero probe n s ho hs = is_missed (λ i. omega arith)
  probe_lem owner c class start (suc left) probe n s ho hs =
      let at = (start + probe) % c.slots in
      let s1 = env n s in
      let s2 = env (suc n) s1 in
      let both = Ages-trans s s1 s2 (ages n s) (ages (suc n) s1) in
      let go = λ (k : ℕ) (s' : Cells). probe_lem owner c class start left (probe + 1) k s' ho hs in
      elim (dec_lt (generation_of (s1 (control_at c at))) max_generation) [
        | no w ↦
            rw (passed env owner c class start left probe n s (inl (omega (arith, w))))
              (earlier (ages n s) (go (suc n) s1))
        | yes w ↦ elim (Bool-cases (is_open env owner c class start left probe n s)) [
          | inr e ↦
              rw (passed env owner c class start left probe n s (inr e))
                (earlier (ages n s) (go (suc n) s1))
          | inl e ↦ elim (ℕ_discrete (s2 (control_at c at)) (s1 (control_at c at))) [
            | no l ↦
                rw (lost env owner c class start left probe n s w l e ho)
                  (earlier both (go (suc (suc n)) s2))
            | yes l ↦ rw (won env owner c class start left probe n s w l e ho) (
                is_taken
                  (Ages-trans s s2 _ both (
                    Ages-update s2 _ _
                      (omega (arith, l, aged (generation_of (s1 (control_at c at)) + 1) owner ho))))
                  (mod-lt (start + probe) hs) (omega (arith, ages n s (control_at c at)))
                  (omega (arith, w)) (update_self s2 _ _))
          ]
        ]
      ]
