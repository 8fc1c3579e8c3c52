-- ===== src/Root/Stale.antt =====
-- src/header.rs, `Root`: a member that has been superseded, and a slot that has been retired.
use evering.Root.Growth.{Grows}
use evering.Base.{ℕ, ◌<◌, ◌≡◌, arith, false, ◌==◌, true, if◌then◌else◌}
use evering.Atomic.{run}
use evering.Cells.{Cells, apply}
use evering.Root.Ops.{
  Member, generation_of, state_of, word, leave, mark_dead, is_dead, release_dead, member_retired,
  member_generation_max, participant_capacity, member_live, member_free,
}

-- Once a slot has had a greater generation, `leave`, `mark_dead`, `is_dead` and `release_dead` of
-- the old member answer no and change nothing.
pub stale_member :
    (m : Member) (s : Cells)
    → m.generation < generation_of (s m.slot)
    → (run apply (leave m) s ≡ (false, s))
      × (run apply (mark_dead m) s ≡ (false, s))
      × (run apply (is_dead m) s ≡ (false, s))
      × (run apply (release_dead m) s ≡ (false, s))
unfolding leave mark_dead is_dead release_dead apply
stale_member m s h = (ground arith, ground arith, ground arith, ground arith)

-- The life of a member whose slot exists and holds its live word: `leave` frees the slot, after
-- which `mark_dead` answers no; `mark_dead` makes `is_dead` answer yes and `leave` no, and then
-- `release_dead` frees the slot, or retires it after the last generation.
member_life :
    (m : Member) (s : Cells)
    → m.slot < participant_capacity
    → s m.slot ≡ word m member_live
    → let left = run apply (leave m) s in
      let died = run apply (mark_dead m) s in
      let released = run apply (release_dead m) died.1 in
      (left.0 ≡ true)
      × (left.1 m.slot ≡ word m member_free)
      × (run apply (mark_dead m) left.1 ≡ (false, left.1))
      × (died.0 ≡ true)
      × (run apply (is_dead m) died.1 ≡ (true, died.1))
      × (run apply (leave m) died.1 ≡ (false, died.1))
      × (released.0 ≡ true)
      × (released.1 m.slot
          ≡ word m (if m.generation == member_generation_max then member_retired else member_free))
unfolding leave mark_dead is_dead release_dead apply
member_life m s h e = (
  ground arith,
  ground arith,
  ground arith,
  ground arith,
  ground arith,
  ground arith,
  ground arith,
  ground arith,
)

-- A retired slot keeps its word through `leave`, `mark_dead` and `release_dead` of whatever
-- member.
retired_stays :
    (m : Member) (s : Cells) (i : ℕ)
    → state_of (s i) ≡ member_retired
    → ((run apply (leave m) s).1 i ≡ s i)
      × ((run apply (mark_dead m) s).1 i ≡ s i)
      × ((run apply (release_dead m) s).1 i ≡ s i)
unfolding leave mark_dead release_dead apply
retired_stays m s i e = (ground arith, ground arith, ground arith)

-- `leave`, `mark_dead` and `release_dead` of whatever member lower no generation, as the others
-- are asked to while one joins.
calls_grow :
    (m : Member) (s : Cells)
    → Grows s (run apply (leave m) s).1
      × Grows s (run apply (mark_dead m) s).1
      × Grows s (run apply (release_dead m) s).1
unfolding leave mark_dead release_dead apply
calls_grow m s = (λ i. ground arith, λ i. ground arith, λ i. ground arith)
