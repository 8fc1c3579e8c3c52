-- ===== src/Session/Parts.antt =====
-- src/session.rs: how a session puts its directory and its heap into a mapping. The sizes and alignments
-- of the two headers and what their admissions do to the memory are given; so is what `source.map` and
-- `Build::new` made. `checks` says whether overflow is checked.
use evering.Base.{ℕ, Option, none, some, Result, ok, err, panicked, Bool}
use evering.Header.Fields.{AdmitError, Context, LayoutField}
use evering.Pool.Layouts.{Layout}
use evering.Talc.Geometry.{Geometry}
use evering.Talc.Heap.Claim.{Config, with_bound}
use evering.Mem.Map.{
  Error, Access, permission_denied, unenough_space, layout_mismatch, contended, layout_closed,
  duplicate_attachment, no_header, poisoned_composition, arithmetic_overflow, participant_exhausted,
}
use evering.Mem.Build.{Build, Reservation, remaining_after, reserve_in, commit_reserved, push}

-- Config::new and Config::with_geometry
abbrev pub new_config : ℕ → Config
new_config size = record { forward = 0; size = size; geometry = none }

abbrev pub with_geometry : Geometry → Config → Config
with_geometry g conf = record conf { geometry = some g }

-- Session: where its headers are.
pub record Session : Type 0 where
  pub dir : ℕ
  pub alloc : ℕ

module _ {ℓ} {M : Type ℓ} (checks : Bool) (dir_layout heap_layout : Layout)
    (admit_dir : Context → M → Result (Unit {0}) AdmitError × M)
    (admit_heap : Config → Context → M → Result (Unit {0}) AdmitError × M) where
  -- The heap, bounded by what is left behind its header.
  abbrev pub commit_bounded : Build → Reservation → M → Option Config → Result ℕ Error × Build × M
  commit_bounded b r memory (some conf) = commit_reserved b heap_layout r (admit_heap conf) memory
  commit_bounded b r memory none = (panicked, b, memory)

  abbrev pub place_heap : Config → Build → M → Result Reservation Error → Result ℕ Error × Build × M
  place_heap conf b memory (ok r) =
      commit_bounded b r memory (with_bound checks (remaining_after b r) conf)
  place_heap conf b memory (err e) = (err e, b, memory)
  place_heap conf b memory panicked = (panicked, b, memory)

  abbrev pub finished : ℕ → Result ℕ Error × Build × M → Result Session Error × Build × M
  finished dir (ok alloc, b, memory) = (ok (record { dir = dir; alloc = alloc }), b, memory)
  finished dir (err e, b, memory) = (err e, b, memory)
  finished dir (panicked, b, memory) = (panicked, b, memory)

  abbrev pub behind_dir : Config → Result ℕ Error × Build × M → Result Session Error × Build × M
  behind_dir conf (ok dir, b, memory) =
      finished dir (place_heap conf b memory (reserve_in b heap_layout))
  behind_dir conf (err e, b, memory) = (err e, b, memory)
  behind_dir conf (panicked, b, memory) = (panicked, b, memory)

  -- Session::from_config
  unfoldable pub from_config : Build → Config → M → Result Session Error × Build × M
  unfolding push reserve_in commit_reserved with_bound
  from_config b conf memory = behind_dir conf (push b dir_layout admit_dir memory)

  -- Session::from and Session::from_geometry, chosen as `Session::admit` does
  unfoldable pub from_choice : Build → Option Geometry → M → Result Session Error × Build × M
  unfolding from_config
  from_choice b none memory = from_config b (new_config b.map.len) memory
  from_choice b (some g) memory = from_config b (with_geometry g (new_config b.map.len)) memory

pub data SessionError {ℓ} (E : Type ℓ) : Type ℓ where
  source : E → SessionError E
  denied : Access → SessionError E
  insufficient_space : ℕ → ℕ → SessionError E
  busy closed_session duplicate bad_header : SessionError E
  layout_differs : LayoutField → SessionError E
  poisoned_session overflow exhausted : SessionError E

-- SessionError::admission
abbrev pub admission {ℓ} : {E : Type ℓ} → Error → SessionError E
admission (permission_denied access) = denied access
admission (unenough_space requested allocated) = insufficient_space requested allocated
admission contended = busy
admission layout_closed = closed_session
admission duplicate_attachment = duplicate
admission no_header = bad_header
admission (layout_mismatch field) = layout_differs field
admission poisoned_composition = poisoned_session
admission arithmetic_overflow = overflow
admission participant_exhausted = exhausted
