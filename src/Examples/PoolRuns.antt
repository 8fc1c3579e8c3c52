-- ===== src/Examples/PoolRuns.antt =====
-- A pool of src/pool.rs with two classes behind a header of 200 bytes.
use evering.Base.{
  ℕ, ◌≡◌, ◌⊎◌, inr, refl, arith, Bool, true, false, ok, err, [], ◌∷◌, ltb, ◌≤◌, update, ◌+◌,
  panicked,
}
use evering.Atomic.{run, exec}
use evering.Cells.{Cells, apply}
use evering.Pool.Layouts.{Layout, extend, from_size_align, is_power_of_two, array_u32}
use evering.Pool.Geometry.{Class, Geometry, build, search, place_all, place}
use evering.Pool.Placed.{Placed, build_lem}
use evering.Pool.Search.{search_lem}
use evering.Pool.Blocks.{Pool, Allocation, detach, drop, takeover, release, probe_from, owned}
use evering.Pool.Transfers.{handed_once, token_of, released}
use evering.Pool.Claims.{Probed, probe_lem}

abbrev header : Layout
header = record { size = 200; align = 8 }

abbrev small : Class
small = record { bytes = 64; slots = 3; controls = 200; payload = 256 }

abbrev large : Class
large = record { bytes = 128; slots = 3; controls = 448; payload = 512 }

abbrev geometry : Geometry
geometry = record { layout = record { size = 896; align = 128 }; classes = small ∷ large ∷ [] }

build_lem_example : Placed 200 (small ∷ large ∷ []) 896
unfolding build place_all place extend from_size_align is_power_of_two array_u32
build_lem_example = build_lem header 64 2 3 geometry (omega arith) refl

abbrev up_to : ℕ → Bool
up_to n = ltb n 40

search_lem_example :
    let found = search up_to 64 5 1000 in
    (up_to found ≡ true) × (5 ≤ found) × ((up_to (found + 1) ≡ false) ⊎ (1000 ≤ found + 1))
search_lem_example =
    search_lem up_to 64 5 1000 1000 refl (inr (omega arith)) (omega arith) (omega arith)

abbrev pool : Pool
pool = record { classes = small ∷ large ∷ []; id = 9; owner = 7; debug = true }

abbrev block : Allocation
block = record { class = 1; slot = 2; generation = 3; live = true }

abbrev in_use : Cells
in_use = update (λ _. 0) 456 456

abbrev given : Cells
given = update in_use 456 448

abbrev given_on : Cells
given_on = update given 456 461

abbrev other : Pool
other = record { classes = small ∷ large ∷ []; id = 9; owner = 12; debug = true }

handed_once_example :
    (run apply (detach pool block) in_use ≡ (ok (released block), given))
    × (run apply (drop pool (released block)) given ≡ (ok tt, given))
    × (run apply (takeover other (token_of pool block)) given ≡ (ok block, given_on))
    × (given_on 456 ≡ 461)
    × (run apply (takeover pool (token_of pool block)) given_on ≡ (err owned, given_on))
    × (run apply (release pool 1 2 3) given_on ≡ (panicked, given_on))
    × (run apply (drop other block) given_on ≡ (ok tt, update given_on 456 384))
handed_once_example =
    handed_once pool block large in_use 12 refl (omega arith) (omega arith) (omega arith)
      (omega arith) (omega arith) (λ e. omega (arith, e)) refl refl

abbrev still : ℕ → Cells → Cells
still n s = s

probe_lem_example : Probed 7 large in_use (exec apply still 0 (probe_from 7 large 1 2 3 0) in_use)
probe_lem_example =
    probe_lem still (λ n s i. omega arith) 7 large 1 2 3 0 0 in_use (omega arith) (omega arith)
