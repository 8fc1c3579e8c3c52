-- ===== src/Directory/Memory.antt =====
-- src/dir.rs: the words of a directory and of its slabs, the word of the heap that says who changes it,
-- and what has been called of the heap's allocator.
use evering.Base.{
  ℕ, ◌+◌, ◌-◌, ◌*◌, ◌/◌, ◌%◌, ◌^◌, Bool, ltb, leb, ◌==◌, if◌then◌else◌, Option, none, some, List,
  Result, ok, err,
}
use evering.Header.Fields.{AdmitError, CloseError}
use evering.Talc.Mutation.{MutationError}

-- Transaction phases, entry states and transaction kinds.
abbrev pub clean : ℕ
clean = 0

abbrev pub held : ℕ
held = 1

abbrev pub evidence : ℕ
evidence = 2

abbrev pub rolling_back : ℕ
rolling_back = 3

abbrev pub vacant : ℕ
vacant = 0

abbrev pub pending_state : ℕ
pending_state = 1

abbrev pub published : ℕ
published = 2

abbrev pub closing : ℕ
closing = 3

abbrev pub removing : ℕ
removing = 4

abbrev pub released_state : ℕ
released_state = 5

abbrev pub quarantined_state : ℕ
quarantined_state = 6

abbrev pub create_kind : ℕ
create_kind = 0

abbrev pub remove_kind : ℕ
remove_kind = 1

abbrev pub grow_kind : ℕ
grow_kind = 2

abbrev pub capacity : ℕ
capacity = 32

abbrev pub generation_max : ℕ
generation_max = 2 ^ 61 - 1

-- (generation << STATE_BITS) | state, and what is read back
abbrev pub entry_word : ℕ → ℕ → ℕ
entry_word generation state = generation * 2 ^ 3 % 2 ^ 64 + state

abbrev pub state_of : ℕ → ℕ
state_of word = word % 2 ^ 3

abbrev pub generation_of : ℕ → ℕ
generation_of word = word / 2 ^ 3

-- Directory::owner_word and word_owner
abbrev pub owner_word : ℕ → ℕ → ℕ
owner_word owner phase = (owner + 1) * 2 ^ 2 + phase

abbrev pub word_owner : ℕ → Option ℕ
word_owner word = if word == clean then none else some ((word / 2 ^ 2 - 1) % 2 ^ 8)

pub data ProjectionError : Type 0 where
  out_of_bounds arithmetic_overflow misaligned read_only : ProjectionError
  admission : AdmitError → ProjectionError

pub data Error : Type 0 where
  busy : ℕ → Error
  full stale rolled_back in_use : Error
  admission : ProjectionError → Error
  heap : MutationError → Error
  close : CloseError → Error

pub data Recovered : Type 0 where
  rolled_back released retained quarantined : Recovered

-- talc's Meta: a span of the heap, from its base on.
pub record Meta : Type 0 where
  pub start : ℕ
  pub size : ℕ

pub data Call : Type 0 where
  allocated deallocated : Meta → Call

-- Slabs are named by their offset in the region, and the directory's own entries by 0; `state` and
-- `offset` take the slab and the place in it. `closed` is the closed bit of the header at an address.
pub record Memory : Type 0 where
  pub transaction : ℕ
  pub pending_slab : ℕ
  pub pending_entry : ℕ
  pub pending_kind : ℕ
  pub pending : Meta
  pub next : ℕ → ℕ
  pub state : ℕ → ℕ → ℕ
  pub offset : ℕ → ℕ → ℕ
  pub mutation : ℕ
  pub calls : List Call
  pub closed : ℕ → Bool

-- What does not change: the region and the heap in it. `place` is the answer of the allocator to a
-- size and an alignment after the calls so far, a start in the heap; `debug` is whether
-- `debug_assert!` evaluates its argument.
pub record Region : Type 0 where
  pub id : ℕ
  pub start : ℕ
  pub size : ℕ
  pub heap_id : ℕ
  pub heap_base : ℕ
  pub place : List Call → ℕ → ℕ → Option ℕ
  pub debug : Bool

-- heap.pointer(meta)
abbrev pub pointer : Region → Meta → ℕ
pointer r meta = r.heap_base + meta.start

-- Mapped::offset_of
unfoldable pub offset_of : Region → ℕ → ℕ → Result ℕ ProjectionError
offset_of r address size =
    if ltb address r.start
    then err out_of_bounds
    else if leb (2 ^ 64) (address - r.start + size)
    then err arithmetic_overflow
    else if leb (address - r.start + size) r.size
    then ok (address - r.start)
    else err out_of_bounds

abbrev pub slab_size : ℕ
slab_size = 8 + capacity * 16

-- Mapped::ref_at for a slab
unfoldable pub slab_at : Region → ℕ → Result ℕ ProjectionError
slab_at r offset =
    if leb (2 ^ 64) (offset + slab_size)
    then err arithmetic_overflow
    else if ltb r.size (offset + slab_size)
    then err out_of_bounds
    else if (r.start + offset) % 8 == 0
    then ok offset
    else err misaligned
