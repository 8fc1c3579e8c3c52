-- ===== src/Talc/Heap/Chunks.antt =====
-- src/talc.rs: the nodes of the free lists, `FreeNode`, `FreeHead` and `FreeTail`, and `Chunk`.
use evering.Base.{ℕ, ◌+◌, ◌-◌, Bool, ◌&&◌, ltb, leb, if◌then◌else◌, Option, none, some}
use evering.Talc.Heap.Memory.{
  Heap, load, store, load_link, store_link, word_size, align_up, tag_size, tag_from_acme,
}

-- FreeNode::SIZE
abbrev pub node_size : ℕ
node_size = 24

-- The place of `prev_next` in a node; its link is at its beginning.
abbrev pub prev_next : ℕ → ℕ
prev_next node = node + 16

-- FreeNode::insert
unfoldable pub insert : ℕ → Option ℕ → ℕ → Heap → Heap
unfolding store_link
insert node none place h =
    store_link place (some node) (store (prev_next node) place (store_link node none h))
insert node (some next) place h =
    store (prev_next next) node
      (store_link place (some node) (store (prev_next node) place (store_link node (some next) h)))

unfoldable pub insert_by : ℕ → ℕ → Heap → Heap
unfolding load_link insert
insert_by node place h = insert node (load_link h place) place h

-- FreeNode::remove
abbrev pub unlink : Option ℕ → ℕ → Heap → Heap
unlink none place h = store_link place none h
unlink (some next) place h = store (prev_next next) place (store_link place (some next) h)

unfoldable pub remove : ℕ → Heap → Heap
unfolding load_link store_link
remove node h = unlink (load_link h node) (load h (prev_next node)) h

-- The places of FreeHead::size_low and of FreeTail::size_high
abbrev pub size_low : Heap → ℕ → ℕ
size_low h head = load h (head + node_size)

abbrev pub head_to_acme : Heap → ℕ → ℕ
head_to_acme h head = head + size_low h head

abbrev pub tail_from_acme : ℕ → ℕ
tail_from_acme acme = acme - tag_size

-- FreeHead::init, and with FreeTail::init behind it
unfoldable pub init_head : ℕ → ℕ → ℕ → Heap → Heap
unfolding insert_by
init_head head place size h = store (head + node_size) size (insert_by head place h)

unfoldable pub init_free : ℕ → ℕ → ℕ → Heap → Heap
unfolding init_head
init_free head place size h =
    store (tail_from_acme (head + size)) size (init_head head place size h)

-- FreeTail::to_head
abbrev pub tail_to_head : Heap → ℕ → ℕ
tail_to_head h tail = tail - (load h tail - tag_size)

pub record Chunk : Type 0 where
  pub base : ℕ
  pub acme : ℕ

abbrev pub min_tag_offset : ℕ
min_tag_offset = node_size

abbrev pub min_chunk_size : ℕ
min_chunk_size = min_tag_offset + tag_size

abbrev pub is_chunk_size : ℕ → Bool
is_chunk_size size = leb min_chunk_size size

abbrev pub is_valid : Chunk → Bool
is_valid c = leb c.base c.acme && is_chunk_size (c.acme - c.base)

abbrev pub chunk_size : ℕ → ℕ
chunk_size size =
    if leb size node_size then min_chunk_size else align_up (size + tag_size) word_size

abbrev pub max : ℕ → ℕ → ℕ
max a b = if ltb a b then b else a

abbrev pub min : ℕ → ℕ → ℕ
min a b = if ltb b a then b else a

-- Chunk::split_prefix: the chunk that is left, and the prefix.
unfoldable pub split_prefix : Chunk → ℕ → Chunk × Option Chunk
split_prefix c alloc_base =
    let prefix_acme = min alloc_base (c.acme - min_chunk_size) in
    let prefix : Chunk = record { base = c.base; acme = prefix_acme } in
    if is_valid prefix then (record c { base = prefix_acme }, some prefix) else (c, none)

-- Chunk::split_suffix: the chunk that is left, the suffix, and the place of the tag.
unfoldable pub split_suffix : Chunk → ℕ → Chunk × Option Chunk × ℕ
split_suffix c alloc_acme =
    let tag = max (c.base + min_tag_offset) alloc_acme in
    let suffix : Chunk = record { base = tag + tag_size; acme = c.acme } in
    if is_valid suffix
    then (record c { acme = tag + tag_size }, some suffix, tag)
    else (c, none, tag_from_acme c.acme)
