-- ===== src/Talc/Heap/Claim.antt =====
-- src/talc.rs: how a heap comes to be, `Config` and `TalcMeta::claim`.
use evering.Base.{
  ℕ, Bool, ◌&&◌, ◌%◌, ◌^◌, zero, suc, ◌+◌, ◌-◌, ◌*◌, true, false, not, ltb, leb, ◌==◌,
  if◌then◌else◌, Option, none, some, Result, ok, err, panicked,
}
use evering.Talc.Geometry.{
  Geometry, GeometryError, availability_words, metadata_bytes, checked, auto,
}
use evering.Talc.Heap.Memory.{
  Heap, null, store, store_link, word_size, align_down, align_place, tag_size, tag_from_acme,
  init_tag, acme_tag,
}
use evering.Talc.Heap.Chunks.{min_chunk_size, is_chunk_size, min}
use evering.Talc.Heap.Blocks.{insert_free}

pub record Config : Type 0 where
  pub forward : ℕ
  pub size : ℕ
  pub geometry : Option Geometry

-- Config::geometry
abbrev pub geometry_of : ℕ → Option Geometry → Result Geometry GeometryError
geometry_of size none = auto size
geometry_of size (some g) = checked g size

-- Config::with_bound; `none` is a panic: of the assertion, or of the subtraction where overflow is
-- checked. Where it is not, the subtraction wraps.
unfoldable pub with_bound : Bool → ℕ → Config → Option Config
with_bound checks bound conf =
    let size = min conf.size bound in
    if not (ltb conf.forward bound)
    then none
    else if ltb size conf.forward && checks
    then none
    else some (record conf { size = (size + 2 ^ 64 - conf.forward) % 2 ^ 64 })

-- TalcMeta::SIZE and TalcMeta::MIN_HEAP_SIZE
abbrev pub meta_size : ℕ
meta_size = 24

abbrev pub min_heap_size : ℕ
min_heap_size = min_chunk_size + tag_size

-- The loops of `claim_metadata`.
unfoldable pub clear_words : ℕ → ℕ → Heap → Heap
clear_words zero place h = h
clear_words (suc n) place h = clear_words n (place + 8) (store place 0 h)

unfoldable pub clear_links : ℕ → ℕ → Heap → Heap
unfolding store_link
clear_links zero place h = h
clear_links (suc n) place h = clear_links n (place + 16) (store_link place none h)

-- TalcMeta::claim_metadata; the metadata ends where `metadata_acme` says.
unfoldable pub claim_metadata : ℕ → Geometry → Heap → Heap
unfolding clear_words clear_links
claim_metadata place g h =
    let bins = place + 8 * availability_words g in
    let cleared = clear_links g.bins bins (clear_words (availability_words g) place h) in
    record cleared { avails = place; bins = bins }

abbrev pub metadata_acme : ℕ → Geometry → ℕ
metadata_acme place g = place + 8 * availability_words g + 16 * g.bins

-- `claim` of a heap that has no metadata yet.
unfoldable pub claim_first : Geometry → ℕ → ℕ → Heap → Heap
unfolding init_tag claim_metadata insert_free acme_tag
claim_first g base size h =
    let after = claim_metadata (base + tag_size) g (init_tag base 0 true h) in
    let tag = metadata_acme (base + tag_size) g in
    let free_size = size - (tag + tag_size - base) in
    if is_chunk_size free_size
    then init_tag tag base true (insert_free g (tag + tag_size) free_size after)
    else acme_tag (tag_from_acme (base + size)) (base + size)
        (init_tag (tag_from_acme (base + size)) base false after)

-- ... and of one that has.
unfoldable pub claim_further : Geometry → ℕ → ℕ → Heap → Heap
unfolding init_tag insert_free
claim_further g base size h = insert_free g (base + tag_size) size (init_tag base 0 true h)

unfoldable pub claim_with : Geometry → Config → Heap → Result (Unit {0}) (Unit {0}) × Heap
unfolding claim_first claim_further
claim_with g conf h =
    let base = align_place h (meta_size + conf.forward) word_size in
    let size = align_down conf.size word_size in
    if not (h.bins == null)
    then (if leb size min_heap_size then (err tt, h) else (ok tt, claim_further g base size h))
    else (if ltb size (metadata_bytes g + 2 * tag_size)
        then (err tt, h)
        else (ok tt, claim_first g base size h))

-- TalcMeta::claim
abbrev pub claimed :
    Config → Heap → Result Geometry GeometryError → Result (Unit {0}) (Unit {0}) × Heap
claimed conf h (ok g) = claim_with g conf h
claimed conf h (err e) = (err tt, h)
claimed conf h panicked = (panicked, h)

unfoldable pub claim : Config → Heap → Result (Unit {0}) (Unit {0}) × Heap
unfolding claim_with auto
claim conf h = claimed conf h (geometry_of conf.size conf.geometry)

-- TalcMeta::null, in memory at `origin`
abbrev pub null_heap : ℕ → (ℕ → ℕ) → Heap
null_heap origin words = record {
  words = words;
  summary = 0;
  avails = null;
  bins = null;
  origin = origin;
}
