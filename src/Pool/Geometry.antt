-- ===== src/Pool/Geometry.antt =====
-- src/pool.rs, `BlockRange` and `Geometry`: the size classes of a pool and where their control words and
-- payloads lie. The layout of the header that stands before them is a parameter.
use evering.Base.{
  ℕ, zero, suc, ◌+◌, ◌-◌, ◌*◌, ◌/◌, ◌%◌, ◌^◌, Bool, true, false, ◌&&◌, ◌||◌, leb, ltb, ◌==◌,
  if◌then◌else◌, Option, none, some, List, [], ◌∷◌, length, Result, ok, err, panicked, not,
}
use evering.Chains.{◌>>=◌}
use evering.Pool.Layouts.{
  Layout, from_size_align, array_u32, extend, pad_to_align, next_power_of_two, ilog2, max,
}

abbrev pub min_block : ℕ
min_block = 64

abbrev pub default_max : ℕ
default_max = 64 * 1024

pub record BlockRange : Type 0 where
  pub min : ℕ
  pub max : ℕ

-- BlockRange::new; `none` is RangeError.
unfoldable pub block_range : ℕ → ℕ → Option BlockRange
unfolding next_power_of_two
block_range low high = do
  least ← next_power_of_two (max low min_block)
  greatest ← next_power_of_two (max high min_block)
  if leb least greatest then some (record { min = least; max = greatest }) else none

pub record Class : Type 0 where
  pub bytes : ℕ
  pub slots : ℕ
  pub controls : ℕ
  pub payload : ℕ

-- Class::control and Class::payload, from the base on.
abbrev pub control_at : Class → ℕ → ℕ
control_at c slot = c.controls + slot * 4

abbrev pub payload_at : Class → ℕ → ℕ
payload_at c slot = c.payload + slot * c.bytes

pub record Geometry : Type 0 where
  pub layout : Layout
  pub classes : List Class

-- checked_shl: the shift is checked, the bits shifted out are dropped.
abbrev pub checked_shl : ℕ → ℕ → Option ℕ
checked_shl n by = if ltb by 64 then some (n * 2 ^ by % 2 ^ 64) else none

-- One turn of the loop of `build`: the class `index`, and the layout with it.
unfoldable pub place : ℕ → ℕ → ℕ → Layout → Option (Class × Layout)
unfolding array_u32 extend from_size_align
place least start index layout = do
  bytes ← checked_shl least index
  let slots = start / 2 ^ (index / 2)
  words ← array_u32 slots
  (next, controls) ← extend layout words
  blocks ← (if ltb (bytes * slots) (2 ^ 64) then from_size_align (bytes * slots) bytes else none)
  (final, payload) ← extend next blocks
  some (record { bytes = bytes; slots = slots; controls = controls; payload = payload }, final)

unfoldable pub place_all : ℕ → ℕ → ℕ → ℕ → Layout → Option (List Class × Layout)
unfolding place
place_all least start zero index layout = some ([], layout)
place_all least start (suc left) index layout = do
  (c, next) ← place least start index layout
  (cs, final) ← place_all least start left (index + 1) next
  some (c ∷ cs, final)

pub data PoolCreateError : Type 0 where
  invalid_extent : PoolCreateError
  required_extent : ℕ → ℕ → PoolCreateError
  storage : PoolCreateError

abbrev pub built : Option Geometry → Result Geometry PoolCreateError
built none = err invalid_extent
built (some g) = ok g

-- range.unwrap_or(..) and range.is_some()
abbrev pub range_or : Option BlockRange → BlockRange
range_or none = record { min = min_block; max = default_max }
range_or (some r) = r

abbrev pub is_given : Option BlockRange → Bool
is_given none = false
is_given (some r) = true

pub record Info : Type 0 where
  pub min : ℕ
  pub base : ℕ
  pub classes : ℕ

-- Geometry::info; `none` stands for the panic on a geometry with no class.
abbrev pub info_of : Geometry → Option Info
info_of g = elim g.classes [
  | [] ↦ none
  | c ∷ cs ↦ some (record { min = c.bytes; base = c.slots; classes = length g.classes })
]

abbrev pub same_info : Info → Info → Bool
same_info a b = (a.min == b.min) && (a.base == b.base) && (a.classes == b.classes)

-- The `while` of `create`: the greatest count below `high` found to fit, by bisection.
unfoldable pub search : (ℕ → Bool) → ℕ → ℕ → ℕ → ℕ
search fits zero low high = low
search fits (suc rounds) low high =
    let middle = low + (high - low) / 2 in
    if not (ltb (low + 1) high) then low else (elim (fits middle) [
      | true ↦ search fits rounds middle high
      | false ↦ search fits rounds low middle
    ])

module _ (header : Layout) where
  -- Geometry::build; `none` is InvalidExtent.
  unfoldable pub build : ℕ → ℕ → ℕ → Option Geometry
  unfolding place_all
  build least count start = do
    (classes, layout) ← place_all least start count 0 header
    some (record { layout = pad_to_align layout; classes = classes })

  -- Whether the pool of these classes fits in `bound` bytes.
  unfoldable pub fits_in : ℕ → ℕ → ℕ → ℕ → Bool
  unfolding build
  fits_in bound least count start = elim (build least count start) [
    | none ↦ false
    | some g ↦ leb g.layout.size bound
  ]

  -- The `loop` of `create`, for `count` classes and then fewer; 64 rounds halve any usize to nothing.
  unfoldable pub create_from : ℕ → ℕ → Bool → ℕ → Result Geometry PoolCreateError
  unfolding build search fits_in
  create_from bound least exact zero = panicked
  create_from bound least exact (suc fewer) =
      let again = create_from bound least exact fewer in
      elim (checked_shl 64 (fewer / 2)) [
        | none ↦ err invalid_extent
        | some minimum ↦ elim (build least (suc fewer) minimum) [
          | none ↦ err invalid_extent
          | some required ↦
              if leb required.layout.size bound
              then built (
                  build least (suc fewer) (
                    search (fits_in bound least (suc fewer)) 64 minimum
                      (bound / (min_block + 1) + 1)))
              else if exact || (fewer == 0)
              then err (required_extent required.layout.size bound)
              else again
        ]
      ]

  -- Geometry::create
  unfoldable pub create : ℕ → Option BlockRange → Result Geometry PoolCreateError
  unfolding create_from ilog2
  create bound range =
      let r = range_or range in
      create_from bound r.min (is_given range) (ilog2 r.max - ilog2 r.min + 1)

  -- Geometry::recorded, of the numbers that the header records; the number of classes is read back
  -- as a u32.
  unfoldable pub recorded : Info → ℕ → Result Geometry (Unit {0})
  unfolding build
  recorded info extent =
      if leb (2 ^ 32) info.classes then err tt else elim (build info.min info.classes info.base) [
        | none ↦ err tt
        | some g ↦ if not (g.layout.size == extent) then err tt else elim (info_of g) [
          | none ↦ panicked
          | some i ↦ if same_info i info then ok g else err tt
        ]
      ]
