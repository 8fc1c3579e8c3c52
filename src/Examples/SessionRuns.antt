-- ===== src/Examples/SessionRuns.antt =====
-- Sessions in a mapping of 256 kB and in one that is too small.
use evering.Base.{
  ℕ, ◌+◌, ◌≤◌, ◌≡◌, refl, true, false, none, some, List, [], ◌∷◌, Result, ok, err, panicked, arith,
  update, inr, ◌^◌, ◌-◌,
}
use evering.Header.Fields.{Context, AdmitError}
use evering.Pool.Layouts.{Layout, ilog2}
use evering.Mem.Map.{Access, Error, commit, unenough_space}
use evering.Mem.Build.{Build}
use evering.Session.Parts.{new_config, with_geometry, Session, from_config, from_choice}
use evering.Session.Within.{Opened, Opens, from_config_lem, heap_within}
use evering.Talc.Heap.Claim.{Config, geometry_of, claim, null_heap, with_bound}
use evering.Talc.Heap.Memory.{Heap}
use evering.Talc.Heap.Free.{IsFree}
use evering.Talc.Heap.Claimed.{no_lists}
use evering.Talc.Geometry.{Geometry, exponential_bin, bin_index, bin, sound, covers, validate}

abbrev all_access : Access
all_access = record { read = true; write = true; exec = false }

abbrev build : ℕ → Build
build len = record {
  map = record { start = 65536; len = len; access = all_access };
  region = 9;
  allow_init = true;
  offset = 2120;
  poisoned = false;
}

abbrev dir_header : Layout
dir_header = record { size = 1000; align = 8 }

abbrev heap_header : Layout
heap_header = record { size = 240; align = 64 }

-- Admissions that succeed; the memory counts them.
abbrev admit_dir : Context → ℕ → Result (Unit {0}) AdmitError × ℕ
admit_dir ctx n = (ok tt, n + 1)

abbrev admit_heap : Config → Context → ℕ → Result (Unit {0}) AdmitError × ℕ
admit_heap conf ctx n = (ok tt, n + 1)

abbrev opened : ℕ → Result Session Error × Build × ℕ
opened len = from_choice false dir_header heap_header admit_dir admit_heap (build len) none 0

opened_at : (opened 262144).0 ≡ ok (record { dir = 67656; alloc = 68672 })
unfolding from_choice
opened_at = refl

-- No room for the heap's header, and room for nothing else.
opened_small : (opened 3375).0 ≡ err (unenough_space 3376 3375)
unfolding from_choice
opened_small = refl

opened_full : (opened 3376).0 ≡ panicked
unfolding from_choice
opened_full = refl

-- A forward offset above the size: the subtraction panics or wraps.
abbrev short : Config
short = record { forward = 10; size = 5; geometry = none }

short_checked : with_bound true 20 short ≡ none
unfolding with_bound
short_checked = refl

short_wrapped : with_bound false 20 short ≡ some (record short { size = 2 ^ 64 - 5 })
unfolding with_bound
short_wrapped = refl

abbrev kb256 : Geometry
kb256 = record {
  bins = 25;
  linear = 16;
  linear_shift = 6;
  exponential_log = 10;
  divisions_log = 0;
  reserved = 0;
}

abbrev conf : Config
conf = with_geometry kb256 (new_config 262144)

from_config_lem_example :
    Opens dir_header heap_header admit_dir admit_heap
      (build 262144)
      conf
      (from_config false dir_header heap_header admit_dir admit_heap (build 262144) conf 0)
from_config_lem_example =
    from_config_lem dir_header heap_header admit_dir admit_heap (build 262144) conf false 0
      (inr (omega arith)) (omega arith) (omega arith)

abbrev session : Session
session = record { dir = 67656; alloc = 68672 }

abbrev bounded_conf : Config
bounded_conf = record { forward = 0; size = 258768; geometry = some kb256 }

whole_opened : Opened dir_header heap_header admit_dir admit_heap (build 262144) conf session 3376 2
unfolding commit
whole_opened = record {
  dir_from = omega arith;
  dir_aligned = refl;
  apart = omega arith;
  heap_aligned = refl;
  ends = refl;
  bounded = bounded_conf;
  before = 1;
  same_forward = refl;
  same_geometry = refl;
  within = omega arith;
  admitted = refl;
}

abbrev fresh_heap : Heap
fresh_heap = null_heap 68888 (λ place. 7)

geometry_fits : geometry_of 258768 (some kb256) ≡ ok kb256
unfolding validate sound covers bin bin_index exponential_bin ilog2
geometry_fits = refl

heap_within_example :
    ((claim bounded_conf fresh_heap).0 ≡ ok tt)
    × ((sizes : ℕ → ℕ) × (lists : ℕ → List ℕ) × (chunk : ℕ) × IsFree kb256
          (claim bounded_conf fresh_heap).1
          sizes
          lists
        × (lists ≡ update no_lists (bin kb256 (sizes chunk)) (chunk ∷ []))
        × (68912 ≤ 68888 + chunk)
        × (68888 + (chunk + sizes chunk) ≤ 65536 + 262144))
unfolding whole_opened validate
heap_within_example =
    heap_within dir_header heap_header admit_dir admit_heap (build 262144) conf session 3376 2
      whole_opened fresh_heap kb256 refl geometry_fits refl refl refl refl
