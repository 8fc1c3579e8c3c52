-- ===== src/Examples/HeaderRuns.antt =====
-- A header of src/header.rs in fresh memory at address 4096.
use evering.Base.{◌+◌, ◌^◌, ◌≡◌, refl, arith, true, false, some, ok, err, update}
use evering.Atomic.{run}
use evering.Cells.{Cells, apply}
use evering.Header.Fields
use evering.Header.Fields.{Body, Context, initialized, AdmitError, CloseError}
use evering.Header.Membership.{close_unique, closed_at, has_member, claim, leave, recover_member}
use evering.Header.Admission.{admit, inspect_at, extent_check}
use evering.Header.Admits.{admit_inspect}
use evering.Header.Closing.{close_lem, claim-leave}

abbrev body : Body
body = record {
  magic = 45056;
  schema = 77;
  revision = 1;
  info_schema = 78;
  info_revision = 1;
  info_size = 24;
  info_align = 8;
  header_size = 200;
  header_align = 8;
  size = 8;
  align = 8;
  storage = some (896, 128);
  info = 5;
  initial = 1;
  init_status = initialized;
  attach = λ _. initialized;
}

abbrev context : Context
context = record { region = 3; offset = 4096; allow_init = true; address = 4096 }

abbrev blank : Cells
blank i = 0

admit_inspect_example :
    let (answer, s') = run apply (admit 1 body context (some 4)) blank in
    (answer ≡ some (ok tt))
    × (s' Fields.status ≡ 2)
    × (s' Fields.members ≡ 16)
    × (run apply (inspect_at body context) s' ≡ (ok 5, s'))
unfolding extent_check
admit_inspect_example =
    admit_inspect body context (896, 128) (some 4) blank 0 refl refl refl refl refl

abbrev alone : Cells
alone = update blank Fields.members 16

abbrev shut : Cells
shut = update alone Fields.members (2 ^ 63)

close_lem_example :
    (run apply (close_unique 4) alone ≡ (ok tt, shut))
    × (run apply closed_at shut ≡ (true, shut))
    × (run apply (has_member 4) shut ≡ (false, shut))
    × (run apply (claim (some 6)) shut ≡ (err AdmitError.closed, shut))
    × (run apply (close_unique 4) shut ≡ (err CloseError.closed, shut))
close_lem_example = close_lem 4 6 alone (omega arith) refl

abbrev two_members : Cells
two_members = update alone Fields.members (16 + 2 ^ 6)

claim-leave_example :
    (run apply (claim (some 6)) alone ≡ (ok (some 6), two_members))
    × (run apply (has_member 6) two_members ≡ (true, two_members))
    × ((run apply (leave 6) two_members).1 Fields.members ≡ 16)
    × ((run apply (recover_member 6) two_members).0 ≡ true)
    × ((run apply (recover_member 6) two_members).1 Fields.members ≡ 16)
claim-leave_example = claim-leave 6 alone refl refl
