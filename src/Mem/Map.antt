-- ===== src/Mem/Map.antt =====
-- src/mem.rs: `Map`, the rights to a mapping and the places of layouts in it. Addresses and sizes are
-- `usize`, of 64 bits.
use evering.Base.{
  ℕ, ◌+◌, ◌-◌, ◌*◌, ◌/◌, ◌^◌, Bool, true, false, not, ◌&&◌, ◌||◌, ltb, if◌then◌else◌, Result, ok,
  err, panicked, and_then, map_err,
}
use evering.Header.Fields.{
  AdmitError, contention, closed, duplicate_member, invalid_header, mismatch, LayoutField, Context,
}
use evering.Pool.Layouts.{Layout}

-- Access, by its flags
pub record Access : Type 0 where
  pub read : Bool
  pub write : Bool
  pub exec : Bool

abbrev pub write_access : Access
write_access = record { read = false; write = true; exec = false }

-- Access::contains
abbrev pub contains : Access → Access → Bool
contains a b = (not b.read || a.read) && (not b.write || a.write) && (not b.exec || a.exec)

pub data Error : Type 0 where
  permission_denied : Access → Error
  unenough_space : ℕ → ℕ → Error
  contended layout_closed duplicate_attachment no_header : Error
  layout_mismatch : LayoutField → Error
  poisoned_composition arithmetic_overflow participant_exhausted : Error

pub record Map : Type 0 where
  pub start : ℕ
  pub len : ℕ
  pub access : Access

-- Map::permits
abbrev pub permits : Map → Access → Result (Unit {0}) Error
permits m access = if not (contains m.access access) then err (permission_denied access) else ok tt

-- `checked_add` and `checked_sub`, with `ok_or(Error::ArithmeticOverflow)`
abbrev pub checked_add : ℕ → ℕ → Result ℕ Error
checked_add a b = if ltb (a + b) (2 ^ 64) then ok (a + b) else err arithmetic_overflow

abbrev pub checked_sub : ℕ → ℕ → Result ℕ Error
checked_sub a b = if ltb a b then err arithmetic_overflow else ok (a - b)

-- Map::reserve: the address of the layout, and the offset behind it.
unfoldable pub reserve_checked : Map → Layout → ℕ → Result (ℕ × ℕ) Error
reserve_checked m t offset = and_then (checked_add m.start offset) (λ candidate.
    and_then (checked_add candidate (t.align - 1)) (λ value.
      let aligned_address = value / t.align * t.align in
      and_then (checked_add aligned_address t.size) (λ end_of.
        and_then (checked_sub aligned_address m.start) (λ aligned.
          and_then (checked_sub end_of m.start) (λ next.
            if ltb m.len next
            then err (unenough_space next m.len)
            else ok (m.start + aligned, next))))))

unfoldable pub reserve : Map → Layout → ℕ → Result (ℕ × ℕ) Error
unfolding reserve_checked
reserve m t offset = and_then (permits m write_access) (λ _. reserve_checked m t offset)

-- The errors of an admission, as `commit` passes them on.
abbrev pub refused : AdmitError → Error
refused contention = contended
refused closed = layout_closed
refused duplicate_member = duplicate_attachment
refused invalid_header = no_header
refused (mismatch field) = layout_mismatch field

-- Map::commit and Region::commit. What a layout's own `admit` does to the memory is given.
unfoldable pub commit {ℓ} :
    {M : Type ℓ}
    → Map
    → (Context → M → Result (Unit {0}) AdmitError × M)
    → Context
    → M
    → Result (Unit {0}) Error × M
commit m admit ctx memory =
    let (answer, after) = admit ctx memory in
    elim (permits m write_access) [
      | ok _ ↦ (map_err refused answer, after)
      | err e ↦ (err e, memory)
      | panicked ↦ (panicked, memory)
    ]
