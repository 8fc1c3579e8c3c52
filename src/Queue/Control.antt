-- ===== src/Queue/Control.antt =====
-- src/queue.rs, the 16-bit control word of a slot. Its fields are read by `/` and `%` where the
-- source masks and shifts; the fields are disjoint, so `|` of them is their sum.
use evering.Base.{
  ℕ, ◌+◌, ◌*◌, ◌/◌, ◌%◌, ◌^◌, ◌≡◌, ◌⊎◌, Bool, false, not, ◌&&◌, ◌||◌, leb, ◌==◌, if◌then◌else◌,
}

abbrev pub empty_base : ℕ
empty_base = 0

abbrev pub producer : ℕ
producer = 1

abbrev pub available : ℕ
available = 2

abbrev pub consumer : ℕ
consumer = 3

-- COMPLETE = 1 << 2
abbrev pub complete : ℕ
complete = 4

-- SOURCE_SHIFT and REAPER_SHIFT are 3 and 9: these are 1 << 3 and 1 << 9.
abbrev pub source_unit : ℕ
source_unit = 8

abbrev pub reaper_unit : ℕ
reaper_unit = 512

-- header.rs: usize::BITS - 1
abbrev pub participant_capacity : ℕ
participant_capacity = 63

unfoldable pub owned : ℕ → Bool → ℕ → ℕ
owned kind done owner = kind + (if done then complete else 0) + (owner + 1) * source_unit

-- control & BASE_MASK
abbrev pub base : ℕ → ℕ
base control = control % 4

-- control & COMPLETE
abbrev pub complete_bit : ℕ → ℕ
complete_bit control = control / 4 % 2 * complete

-- (control & SOURCE_MASK) >> SOURCE_SHIFT
abbrev pub source : ℕ → ℕ
source control = control / source_unit % 64

-- (control & REAPER_MASK) >> REAPER_SHIFT
abbrev pub reaper : ℕ → ℕ
reaper control = control / reaper_unit % 64

-- control & RESERVED_MASK, as 0 or 1
abbrev pub reserved_bit : ℕ → ℕ
reserved_bit control = control / 2 ^ 15 % 2

unfoldable pub canonical : ℕ → Bool
canonical control =
    if not (reserved_bit control == 0)
    then false
    else if base control == empty_base
    then control == empty_base
    else if (base control == producer) || (base control == consumer)
    then not (source control == 0)
      && leb (source control) participant_capacity
      && leb (reaper control) participant_capacity
    else (source control == 0) && (reaper control == 0)

-- Whether a slot with this word is held by a participant.
abbrev pub IsHeld : ℕ → Type 0
IsHeld control = (base control ≡ producer) ⊎ (base control ≡ consumer)
