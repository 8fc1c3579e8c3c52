-- ===== src/Examples/TalcRuns.antt =====
-- The heap of src/talc.rs: participants 1 and 2 at its mutation word, and the geometry of 256 KiB.
use evering.Base.{ℕ, ◌*◌, ◌≤◌, ◌<◌, ◌≡◌, refl, List, [], ◌∷◌, ok, err, arith}
use evering.Pool.Layouts.{ilog2}
use evering.Talc.Mutation.{owner_word, busy, claim, commit, poison_owner}
use evering.Talc.Guards.{Heap, Event, claims, commits, poisons, clears, steps, step, guard_alone}
use evering.Talc.Geometry.{
  Geometry, exponential_bin, bin_index, bin, budget, sound, covers, validate, new, fit_divisions,
  fit_shift, auto,
}
use evering.Talc.Bins.{bin_monotone}
use evering.Talc.Auto.{auto_lem}

abbrev events : List Event
events = claims 1 ∷ claims 2 ∷ commits 1 ∷ claims 2 ∷ poisons 1 ∷ []

abbrev untouched_heap : Heap
untouched_heap = record { word = 0; guards = [] }

guard_alone_example :
    (◌≡◌ {A = List ℕ} [] [])
    × ((steps untouched_heap events).word ≡ owner_word 2)
    × (claim 5 (steps untouched_heap events).word
        ≡ (err (busy 2), (steps untouched_heap events).word))
unfolding steps step claim commit poison_owner
guard_alone_example = guard_alone 0 events 2 5 [] (omega arith) refl

abbrev deaths : List Event
deaths = claims 1 ∷ clears 2 ∷ poisons 1 ∷ []

abbrev quarter : Geometry
quarter = record {
  bins = 25;
  linear = 16;
  linear_shift = 6;
  exponential_log = 10;
  divisions_log = 0;
  reserved = 0;
}

bin_monotone_example : (bin quarter 700 ≤ bin quarter 5000) × (bin quarter 5000 < 25)
bin_monotone_example =
    bin_monotone quarter 700 5000 (omega arith) refl (omega arith) (omega arith) (omega arith)

auto_lem_example :
    (new 262144 6 10 0 ≡ ok quarter)
    × (validate quarter 262144 ≡ ok tt)
    × (25 * 129 ≤ budget 262144 * 8)
unfolding auto budget fit_shift fit_divisions validate sound covers bin bin_index exponential_bin
    ilog2
auto_lem_example = auto_lem 262144 quarter refl
