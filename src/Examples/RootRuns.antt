-- ===== src/Examples/RootRuns.antt =====
-- A region of src/header.rs whose slot 0 has been used twice before.
use evering.Base.{ℕ, ◌≡◌, ◌≢◌, refl, arith, false, if◌then◌else◌, update, ◌==◌}
use evering.Atomic.{run, exec}
use evering.Cells.{Cells, apply}
use evering.Root.Ops.{
  Member, join, leave, mark_dead, is_dead, release_dead, participant_capacity, join_from,
}
use evering.Root.Growth.{IsFair, Words}
use evering.Root.Joins.{Joined, join_lem, joins_differ}
use evering.Root.Stale.{stale_member}

abbrev used : Cells
used i = if i == 0 then 8 else 0

abbrev still : ℕ → Cells → Cells
still n s = s

still-IsFair : IsFair still
still-IsFair = record { grows = λ n s i. omega arith; words = λ n s v. v }

used-Words : Words used
used-Words i = ground arith

abbrev first : Member
first = record { slot = 0; generation = 3 }

abbrev second : Member
second = record { slot = 1; generation = 1 }

abbrev joined : Cells
joined = update used 0 13

joined-Words : Words joined
joined-Words i = ground arith

join_lem_example : Joined participant_capacity 0 used (exec apply still 0 join used)
join_lem_example = join_lem still still-IsFair 0 used used-Words

joins_differ_example : first ≢ second
unfolding join join_from apply
joins_differ_example =
    joins_differ still still-IsFair 0 0 used joined joined (update joined 1 5) first second
      used-Words refl (λ i. omega arith) joined-Words refl

stale_member_example :
    let old : Member = record { slot = 0; generation = 2 } in
    (run apply (leave old) joined ≡ (false, joined))
    × (run apply (mark_dead old) joined ≡ (false, joined))
    × (run apply (is_dead old) joined ≡ (false, joined))
    × (run apply (release_dead old) joined ≡ (false, joined))
stale_member_example = stale_member (record { slot = 0; generation = 2 }) joined (omega arith)
