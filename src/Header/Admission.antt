-- ===== src/Header/Admission.antt =====
-- src/header.rs: `recorded_at`, `inspect_at`, `mismatch_at` and `admit`. The loop of `admit` runs for a
-- number of rounds; it goes round again only when another participant has won the initialization.
use evering.Base.{
  ℕ, zero, suc, ◌%◌, ◌^◌, Bool, true, false, not, ◌||◌, ltb, ◌==◌, if◌then◌else◌, Option, none,
  some, List, [], ◌∷◌, Result, ok, err, panicked,
}
use evering.Atomic.{Prog, ret, ◌>>=◌, ◌>>◌, access}
use evering.Cells.{Access, load, store, swap}
use evering.Pool.Layouts.{is_power_of_two}
use evering.Header.Fields
use evering.Header.Fields.{
  Status, uninitialized, initializing, initialized, corrupted, LayoutField, AdmitError,
  invalid_header, mismatch, Body, Context,
}
use evering.Header.Membership.{claim, Membership, drop_membership}

-- Status::from_u8, and the numbers of its constructors.
unfoldable pub from_u8 : ℕ → Status
from_u8 v =
    if v == 0
    then uninitialized
    else if v == 1
    then initializing
    else if v == 2
    then initialized
    else corrupted

abbrev pub is_initialized : Status → Bool
is_initialized initialized = true
is_initialized _ = false

-- RECORD_FORMAT, and the size of a `Record`.
abbrev pub record_format : ℕ
record_format = 1

abbrev pub record_size : ℕ
record_size = 35

-- `check!` of fields one after the other: place, expected value, and the field to report.
unfoldable pub check_all : List (ℕ × ℕ × LayoutField) → Prog Access (Option LayoutField)
check_all [] = ret none
check_all ((place, expected, field) ∷ rest) =
    let next = check_all rest in
    do found ← access (load place); if found == expected then next else ret (some field)

-- The checks of `recorded_at` on the extent and its alignment.
unfoldable pub extent_check : Context → ℕ → ℕ → Option LayoutField
unfolding is_power_of_two
extent_check ctx size align =
    if ltb size record_size
    then some LayoutField.extent_field
    else if not (is_power_of_two align) || not (ctx.address % align == 0)
    then some LayoutField.extent_align_field
    else none

-- The fields are then those of the record; AbiProfile::NATIVE has words and atomics of 8 bytes and is
-- little-endian.
unfoldable pub recorded_at : Context → Prog Access (Option LayoutField)
unfolding from_u8
recorded_at ctx = do
  raw ← access (load Fields.status)
  if not (is_initialized (from_u8 raw)) then ret (some LayoutField.state_field) else (do
    form ← access (load Fields.format)
    if not (form == record_format) then ret (some LayoutField.format_field) else (do
      words ← access (load Fields.word_bytes)
      atomics ← access (load Fields.atomic_bytes)
      little ← access (load Fields.little_endian)
      if not (words == 8) || not (atomics == 8) || (little == 0)
          then ret (some LayoutField.profile_field)
          else (do
            size ← access (load Fields.extent)
            align ← access (load Fields.extent_align)
            ret (extent_check ctx size align))))

-- The fields that `inspect_at` compares once the record is read, in its order.
abbrev pub expected : Body → Context → List (ℕ × ℕ × LayoutField)
expected b ctx =
    (Fields.magic, b.magic, LayoutField.magic_field)
    ∷ (Fields.schema, b.schema, LayoutField.schema_field)
    ∷ (Fields.revision, b.revision, LayoutField.revision_field)
    ∷ (Fields.region, ctx.region, LayoutField.region_field)
    ∷ (Fields.offset, ctx.offset, LayoutField.offset_field)
    ∷ (Fields.header_size, b.header_size, LayoutField.header_size_field)
    ∷ (Fields.header_align, b.header_align, LayoutField.header_align_field)
    ∷ (Fields.info_schema, b.info_schema, LayoutField.info_schema_field)
    ∷ (Fields.info_revision, b.info_revision, LayoutField.info_revision_field)
    ∷ (Fields.info_size, b.info_size, LayoutField.info_size_field)
    ∷ (Fields.info_align, b.info_align, LayoutField.info_align_field)
    ∷ (Fields.body_size, b.size, LayoutField.size_field)
    ∷ (Fields.body_align, b.align, LayoutField.align_field)
    ∷ []

unfoldable pub after_checks : Option LayoutField → Prog Access (Result ℕ AdmitError)
after_checks (some field) = ret (err (mismatch field))
after_checks none = do found ← access (load Fields.info); ret (ok found)

unfoldable pub after_record :
    Body → Context → Option LayoutField → Prog Access (Result ℕ AdmitError)
unfolding check_all after_checks
after_record b ctx (some field) = ret (err (mismatch field))
after_record b ctx none = do wrong ← check_all (expected b ctx); after_checks wrong

unfoldable pub inspect_at : Body → Context → Prog Access (Result ℕ AdmitError)
unfolding recorded_at after_record
inspect_at b ctx = do bad ← recorded_at ctx; after_record b ctx bad

-- `mismatch_at`; an error of `inspect_at` is always a mismatch.
unfoldable pub mismatch_at : Body → Context → Prog Access (Option LayoutField)
unfolding inspect_at check_all
mismatch_at b ctx = do
  inspected ← inspect_at b ctx
  elim inspected [
    | Result.panicked ↦ ret (some LayoutField.state_field)
    | err (mismatch field) ↦ ret (some field)
    | err _ ↦ ret (some LayoutField.state_field)
    | ok found ↦ elim b.storage [
      | none ↦ ret (some LayoutField.extent_field)
      | some layout ↦ (do
        wrong ← check_all (
            (Fields.extent, layout.0, LayoutField.extent_field)
            ∷ (Fields.extent_align, layout.1, LayoutField.extent_align_field)
            ∷ [])
        elim wrong [
          | some field ↦ ret (some field)
          | none ↦ ret (if found == b.info then none else some LayoutField.info_field)
        ])
    ]
  ]

-- `InitClaim::drop` of a claim that was not disarmed.
unfoldable pub spoil : Prog Access (Unit {0})
spoil = do access (store Fields.status 3); ret tt

abbrev pub membership_word : Membership → ℕ
membership_word none = 0
membership_word (some slot) = 2 ^ slot

-- The writes of the participant that won the initialization, before the body.
unfoldable pub write_all : List (ℕ × ℕ) → Prog Access (Unit {0})
write_all [] = ret tt
write_all ((place, value) ∷ rest) = do access (store place value); write_all rest

-- `Record::initialize` and the fields of `RcHeader`, in the order of the writes.
abbrev pub header_fields : Body → Context → ℕ × ℕ → Membership → List (ℕ × ℕ)
header_fields b ctx layout slot =
    (Fields.format, record_format)
    ∷ (Fields.word_bytes, 8)
    ∷ (Fields.atomic_bytes, 8)
    ∷ (Fields.little_endian, 1)
    ∷ (Fields.magic, b.magic)
    ∷ (Fields.revision, b.revision)
    ∷ (Fields.schema, b.schema)
    ∷ (Fields.extent, layout.0)
    ∷ (Fields.extent_align, layout.1)
    ∷ (Fields.members, membership_word slot)
    ∷ (Fields.region, ctx.region)
    ∷ (Fields.offset, ctx.offset)
    ∷ (Fields.header_size, b.header_size)
    ∷ (Fields.header_align, b.header_align)
    ∷ (Fields.info_schema, b.info_schema)
    ∷ (Fields.info_revision, b.info_revision)
    ∷ (Fields.info_size, b.info_size)
    ∷ (Fields.info_align, b.info_align)
    ∷ (Fields.body_size, b.size)
    ∷ (Fields.body_align, b.align)
    ∷ (Fields.info, b.info)
    ∷ []

-- What `admit` does once it has won the initialization.
unfoldable pub initialize :
    Body → Context → ℕ × ℕ → Membership → Prog Access (Result (Unit {0}) AdmitError)
unfolding write_all drop_membership spoil
initialize b ctx layout slot = do
  write_all (header_fields b ctx layout slot)
  access (store Fields.inner b.initial)
  if not (is_initialized b.init_status)
      then (do drop_membership slot; spoil; ret (err invalid_header))
      else (do access (store Fields.status 2); ret (ok tt))

-- What `admit` does on a header that is initialized.
unfoldable pub join_header :
    Body → Context → Membership → Prog Access (Result (Unit {0}) AdmitError)
unfolding mismatch_at claim drop_membership
join_header b ctx slot = do
  wrong ← mismatch_at b ctx
  elim wrong [
    | some field ↦ ret (err (mismatch field))
    | none ↦ (do
      claimed ← claim slot
      elim claimed [
        | Result.panicked ↦ ret panicked
        | err e ↦ ret (err e)
        | ok membership ↦ (do
          body ← access (load Fields.inner)
          elim (b.attach body) [
            | initialized ↦ ret (ok tt)
            | initializing ↦ (do drop_membership membership; ret (err AdmitError.contention))
            | _ ↦ (do drop_membership membership; ret (err invalid_header))
          ])
      ])
  ]

-- The loop of `admit`; `none` when the rounds ran out.
unfoldable pub admit_from :
    ℕ → Body → Context → ℕ × ℕ → Membership → Prog Access (Option (Result (Unit {0}) AdmitError))
unfolding initialize join_header from_u8
admit_from zero b ctx layout slot = ret none
admit_from (suc rounds) b ctx layout slot =
    let again = admit_from rounds b ctx layout slot in
    do
      raw ← access (load Fields.status)
      elim (from_u8 raw) [
        | uninitialized ↦
            if not ctx.allow_init then ret (some (err (mismatch LayoutField.state_field))) else (do
              seen ← access (swap Fields.status 0 1)
              if not (seen == 0)
                  then again
                  else (do r ← initialize b ctx layout slot; ret (some r)))
        | initializing ↦ ret (some (err AdmitError.contention))
        | corrupted ↦ ret (some (err invalid_header))
        | initialized ↦ (do r ← join_header b ctx slot; ret (some r))
      ]

unfoldable pub admit :
    ℕ → Body → Context → Membership → Prog Access (Option (Result (Unit {0}) AdmitError))
unfolding admit_from
admit rounds b ctx slot = elim b.storage [
  | none ↦ ret (some (err invalid_header))
  | some layout ↦ admit_from rounds b ctx layout slot
]
