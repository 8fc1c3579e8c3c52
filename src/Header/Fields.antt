-- ===== src/Header/Fields.antt =====
-- src/header.rs: the cells of an `RcHeader`, the answers of its operations, and what the header takes
-- from the layout that it stands before.
use evering.Base.{ℕ, Bool, Option}

-- The places of the fields of `Record` and `RcHeader`. A region, a schema, an information value and a
-- body are opaque numbers.
abbrev pub status : ℕ
status = 0

abbrev pub format : ℕ
format = 1

abbrev pub word_bytes : ℕ
word_bytes = 2

abbrev pub atomic_bytes : ℕ
atomic_bytes = 3

abbrev pub little_endian : ℕ
little_endian = 4

abbrev pub magic : ℕ
magic = 5

abbrev pub revision : ℕ
revision = 6

abbrev pub schema : ℕ
schema = 7

abbrev pub extent : ℕ
extent = 8

abbrev pub extent_align : ℕ
extent_align = 9

abbrev pub members : ℕ
members = 10

abbrev pub region : ℕ
region = 11

abbrev pub offset : ℕ
offset = 12

abbrev pub header_size : ℕ
header_size = 13

abbrev pub header_align : ℕ
header_align = 14

abbrev pub info_schema : ℕ
info_schema = 15

abbrev pub info_revision : ℕ
info_revision = 16

abbrev pub info_size : ℕ
info_size = 17

abbrev pub info_align : ℕ
info_align = 18

abbrev pub body_size : ℕ
body_size = 19

abbrev pub body_align : ℕ
body_align = 20

abbrev pub info : ℕ
info = 21

abbrev pub inner : ℕ
inner = 22

pub data Status : Type 0 where
  uninitialized initializing initialized corrupted : Status

pub data LayoutField : Type 0 where
  state_field format_field profile_field magic_field revision_field schema_field : LayoutField
  region_field offset_field header_size_field header_align_field : LayoutField
  extent_field extent_align_field : LayoutField
  info_schema_field info_revision_field info_size_field info_align_field : LayoutField
  size_field align_field info_field : LayoutField

pub data AdmitError : Type 0 where
  contention closed duplicate_member invalid_header : AdmitError
  mismatch : LayoutField → AdmitError

pub data CloseError : Type 0 where
  contention missing_member closed : CloseError

-- What a layout with its configuration gives the header: its constants, its storage (size and
-- alignment), its information value, the body that `init` leaves with its status, and `attach`.
pub record Body : Type 0 where
  pub magic : ℕ
  pub schema : ℕ
  pub revision : ℕ
  pub info_schema : ℕ
  pub info_revision : ℕ
  pub info_size : ℕ
  pub info_align : ℕ
  pub header_size : ℕ
  pub header_align : ℕ
  pub size : ℕ
  pub align : ℕ
  pub storage : Option (ℕ × ℕ)
  pub info : ℕ
  pub initial : ℕ
  pub init_status : Status
  pub attach : ℕ → Status

-- LayoutContext, and the address of the header.
pub record Context : Type 0 where
  pub region : ℕ
  pub offset : ℕ
  pub allow_init : Bool
  pub address : ℕ
