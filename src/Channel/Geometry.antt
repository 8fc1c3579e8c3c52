-- ===== src/Channel/Geometry.antt =====
-- src/channel.rs: `Duplex::geometry`, the sizes of the two directions of a channel.
use evering.Base.{ℕ, ◌+◌, ◌*◌, ◌^◌, leb, ◌==◌, if◌then◌else◌, Option, none, some, Result, ok, err}
use evering.Pool.Layouts.{Layout, isize_max, extend, pad_to_align, next_power_of_two}

pub data GeometryError : Type 0 where
  zero_capacity overflow : GeometryError

pub record Geometry : Type 0 where
  pub layout : Layout
  pub slots : ℕ
  pub capacity : ℕ
  pub one_lap : ℕ

-- Layout::array of `count` slots of the layout `slot`
abbrev pub array_slots : Layout → ℕ → Option Layout
array_slots slot count =
    if leb (slot.size * count) isize_max
    then some (record { size = slot.size * count; align = slot.align })
    else none

-- The last step: one lap is a power of two above the capacity.
abbrev pub with_lap : ℕ → Layout × ℕ → Option ℕ → Result Geometry GeometryError
with_lap capacity placed none = err overflow
with_lap capacity placed (some one_lap) = ok (record {
  layout = pad_to_align placed.0;
  slots = placed.1;
  capacity = capacity;
  one_lap = one_lap;
})

abbrev pub with_slots : ℕ → Option (Layout × ℕ) → Result Geometry GeometryError
with_slots capacity none = err overflow
with_slots capacity (some placed) =
    if leb (2 ^ 64) (capacity + 1)
    then err overflow
    else with_lap capacity placed (next_power_of_two (capacity + 1))

abbrev pub with_array : Layout → ℕ → Option Layout → Result Geometry GeometryError
with_array header capacity none = err overflow
with_array header capacity (some array) = with_slots capacity (extend header array)

-- Duplex::geometry, with the layouts of the header and of a slot.
unfoldable pub geometry : Layout → Layout → ℕ → Result Geometry GeometryError
geometry header slot capacity =
    if capacity == 0
    then err zero_capacity
    else if leb (2 ^ 64) (capacity * 2)
    then err overflow
    else with_array header capacity (array_slots slot (capacity * 2))
