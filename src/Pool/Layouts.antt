-- ===== src/Pool/Layouts.antt =====
-- What src/pool.rs uses of `core::alloc::Layout`: a size and an alignment, a power of two, such that
-- the size rounded up to the alignment is at most isize::MAX.
use evering.Base.{
  ℕ, zero, suc, ◌+◌, ◌-◌, ◌*◌, ◌/◌, ◌^◌, Bool, false, ◌&&◌, ◌||◌, leb, ltb, ◌==◌, if◌then◌else◌,
  Option, none, some,
}

pub record Layout : Type 0 where
  pub size : ℕ
  pub align : ℕ

abbrev pub isize_max : ℕ
isize_max = 2 ^ 63 - 1

abbrev pub round_up : ℕ → ℕ → ℕ
round_up n align = (n + align - 1) / align * align

-- Whether `n` is one of the powers of two from `p` on, of which `left` are tried.
unfoldable pub is_power_from : ℕ → ℕ → ℕ → Bool
is_power_from zero p n = false
is_power_from (suc left) p n = (n == p) || is_power_from left (2 * p) n

unfoldable pub is_power_of_two : ℕ → Bool
unfolding is_power_from
is_power_of_two n = is_power_from 64 1 n

abbrev pub max : ℕ → ℕ → ℕ
max a b = if ltb a b then b else a

-- Layout::from_size_align
unfoldable pub from_size_align : ℕ → ℕ → Option Layout
unfolding is_power_of_two
from_size_align size align =
    if is_power_of_two align && leb (round_up size align) isize_max
    then some (record { size = size; align = align })
    else none

-- Layout::array::<AtomicU32>
unfoldable pub array_u32 : ℕ → Option Layout
array_u32 n = if leb (n * 4) isize_max then some (record { size = n * 4; align = 4 }) else none

-- Layout::extend: the second layout after the first, and its offset.
unfoldable pub extend : Layout → Layout → Option (Layout × ℕ)
unfolding from_size_align
extend a b =
    let offset = round_up a.size b.align in
    elim (from_size_align (offset + b.size) (max a.align b.align)) [
      | none ↦ none
      | some c ↦ some (c, offset)
    ]

abbrev pub pad_to_align : Layout → Layout
pad_to_align a = record a { size = round_up a.size a.align }

-- checked_next_power_of_two, by doubling from `p`; 2 ^ 63 is the last power that a usize holds.
unfoldable pub next_power_from : ℕ → ℕ → ℕ → Option ℕ
next_power_from zero p n = none
next_power_from (suc left) p n = if leb n p then some p else next_power_from left (2 * p) n

unfoldable pub next_power_of_two : ℕ → Option ℕ
unfolding next_power_from
next_power_of_two n = next_power_from 64 1 n

-- ilog2 of a number above zero
unfoldable pub log_from : ℕ → ℕ → ℕ
log_from zero n = 0
log_from (suc left) n = if ltb n 2 then 0 else log_from left (n / 2) + 1

unfoldable pub ilog2 : ℕ → ℕ
unfolding log_from
ilog2 n = log_from 64 n
