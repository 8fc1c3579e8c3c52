-- ===== src/Talc/Geometry.antt =====
-- src/talc.rs: the size classes of the heap, `Geometry`.
use evering.Base.{
  ℕ, zero, suc, ◌+◌, ◌-◌, ◌*◌, ◌/◌, ◌%◌, ◌^◌, Bool, not, ◌&&◌, ◌||◌, ltb, leb, ◌==◌, if◌then◌else◌,
  Option, none, some, Result, ok, err, and_then,
}
use evering.Pool.Layouts.{ilog2}

abbrev pub min_metadata : ℕ
min_metadata = 512

abbrev pub max_metadata : ℕ
max_metadata = 16 * 2 ^ 10

abbrev pub max_divisions_log : ℕ
max_divisions_log = 3

abbrev pub word_bits : ℕ
word_bits = 64

-- a free node, two links and a place, and the tag
abbrev pub min_chunk_size : ℕ
min_chunk_size = 24 + 8

pub data GeometryError : Type 0 where
  too_small too_many_bins invalid : GeometryError

pub record Geometry : Type 0 where
  pub bins : ℕ
  pub linear : ℕ
  pub linear_shift : ℕ
  pub exponential_log : ℕ
  pub divisions_log : ℕ
  pub reserved : ℕ

abbrev pub divisions : Geometry → ℕ
divisions g = 2 ^ g.divisions_log

abbrev pub max : ℕ → ℕ → ℕ
max a b = if ltb a b then b else a

abbrev pub min : ℕ → ℕ → ℕ
min a b = if ltb a b then a else b

-- The class of a size in its octave, and the one of a small size.
unfoldable pub exponential_bin : Geometry → ℕ → ℕ → ℕ
exponential_bin g octave size =
    g.linear
    + (octave - g.exponential_log) * divisions g
    + (size - 2 ^ octave) * divisions g / 2 ^ octave

unfoldable pub bin_index : Geometry → ℕ → ℕ
unfolding ilog2 exponential_bin
bin_index g size =
    if ltb size (2 ^ g.exponential_log)
    then (size - 1) / 2 ^ g.linear_shift
    else exponential_bin g (ilog2 size) size

unfoldable pub bin : Geometry → ℕ → ℕ
unfolding bin_index
bin g size = min (bin_index g (max size 1)) (g.bins - 1)

-- bin_count().div_ceil(word_bits)
abbrev pub availability_words : Geometry → ℕ
availability_words g = (g.bins + word_bits - 1) / word_bits

abbrev pub metadata_bytes : Geometry → ℕ
metadata_bytes g = g.bins * 16 + availability_words g * 8

unfoldable pub budget : ℕ → ℕ
budget extent =
    let b = extent / 2 ^ 10 in
    if ltb b min_metadata then min_metadata else if ltb max_metadata b then max_metadata else b

-- The tests of `validate`, in the order of the source.
unfoldable pub sound : Geometry → ℕ → Bool
sound g extent =
    leb min_chunk_size extent
    && (g.reserved == 0)
    && not (g.bins == 0)
    && not (g.linear == 0)
    && leb g.linear_shift g.exponential_log
    && ltb g.exponential_log 64
    && leb g.divisions_log max_divisions_log
    && leb (availability_words g) word_bits
    && leb (metadata_bytes g + min_metadata) extent

unfoldable pub covers : Geometry → ℕ → Bool
unfolding ilog2 bin
covers g extent =
    let exponential = g.bins - g.linear in
    (g.linear == 2 ^ (g.exponential_log - g.linear_shift))
    && leb g.linear g.bins
    && leb g.exponential_log (ilog2 extent)
    && (exponential % divisions g == 0)
    && leb (ilog2 extent) (g.exponential_log + exponential / divisions g - 1)
    && ltb (bin g extent) g.bins

unfoldable pub validate : Geometry → ℕ → Result (Unit {0}) GeometryError
unfolding sound covers
validate g extent = if sound g extent && covers g extent then ok tt else err invalid

abbrev pub checked : Geometry → ℕ → Result Geometry GeometryError
checked g extent = and_then (validate g extent) (λ _. ok g)

-- Geometry::new
unfoldable pub new : ℕ → ℕ → ℕ → ℕ → Result Geometry GeometryError
unfolding ilog2 validate
new extent linear_shift exponential_log divisions_log =
    if ltb extent min_chunk_size
      || ltb exponential_log linear_shift
      || leb 64 exponential_log
      || ltb (ilog2 extent) exponential_log
      || ltb max_divisions_log divisions_log
    then err invalid
    else (let linear = 2 ^ (exponential_log - linear_shift) in
        let bins = linear + (ilog2 extent - exponential_log + 1) * 2 ^ divisions_log in
        if ltb (2 ^ 16 - 1) bins
        then err too_many_bins
        else checked
            (record {
              bins = bins;
              linear = linear;
              linear_shift = linear_shift;
              exponential_log = exponential_log;
              divisions_log = divisions_log;
              reserved = 0;
            })
            extent)

-- The two loops of `auto`: for each linear shift, from `divisions_log` divisions down.
abbrev pub candidate : ℕ → ℕ → ℕ → ℕ → Geometry
candidate max_log exponential_log linear_shift divisions_log = record {
  bins = 2 ^ (exponential_log - linear_shift) + (max_log - exponential_log + 1) * 2 ^ divisions_log;
  linear = 2 ^ (exponential_log - linear_shift);
  linear_shift = linear_shift;
  exponential_log = exponential_log;
  divisions_log = divisions_log;
  reserved = 0;
}

unfoldable pub fit_divisions : ℕ → ℕ → ℕ → ℕ → ℕ → Option Geometry
fit_divisions max_bins max_log exponential_log linear_shift zero =
    let g = candidate max_log exponential_log linear_shift 0 in
    if leb g.bins max_bins then some g else none
fit_divisions max_bins max_log exponential_log linear_shift (suc d) =
    let rest = fit_divisions max_bins max_log exponential_log linear_shift d in
    let g = candidate max_log exponential_log linear_shift (suc d) in
    if leb g.bins max_bins then some g else rest

unfoldable pub fit_shift : ℕ → ℕ → ℕ → ℕ → ℕ → Option Geometry
unfolding fit_divisions
fit_shift max_bins max_log exponential_log zero linear_shift = none
fit_shift max_bins max_log exponential_log (suc left) linear_shift =
    let rest = fit_shift max_bins max_log exponential_log left (suc linear_shift) in
    elim (fit_divisions max_bins max_log exponential_log linear_shift max_divisions_log) [
      | some g ↦ some g
      | none ↦ rest
    ]

abbrev pub top_log : ℕ → ℕ
top_log extent = min (ilog2 extent) 10

-- The greatest number of classes that the budget has room for, at 129 bits each.
abbrev pub max_bins : ℕ → ℕ
max_bins extent = min (min (budget extent * 8 / 129) (word_bits * word_bits)) (2 ^ 16 - 1)

unfoldable pub auto : ℕ → Result Geometry GeometryError
auto extent =
    if ltb extent min_chunk_size
    then err too_small
    else (let shift = min 4 (top_log extent) in
        elim (fit_shift (max_bins extent) (ilog2 extent) (top_log extent)
          (top_log extent - shift + 1) shift) [
            | some g ↦ checked g extent
            | none ↦ err too_many_bins
          ])
