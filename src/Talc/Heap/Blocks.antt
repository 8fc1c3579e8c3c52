-- ===== src/Talc/Heap/Blocks.antt =====
-- src/talc.rs: the free chunks of `TalcMeta`, and the blocks that it allocates and takes back.
use evering.Base.{
  ℕ, zero, suc, ◌+◌, ◌-◌, ◌*◌, Bool, true, false, not, ◌&&◌, ltb, leb, ◌==◌, if◌then◌else◌, Option,
  none, some, List, [], ◌∷◌,
}
use evering.Pool.Layouts.{Layout}
use evering.Talc.Geometry.{Geometry, bin}
use evering.Talc.Heap.Memory.{
  Heap, load, load_link, word_size, align_place, to_base_rel, is_allocated, is_above_free,
  tag_from_acme, tag_to_acme, init_tag, acme_tag, from_alloc_base, toggle_above_free,
  set_above_free, clear_above_free,
}
use evering.Talc.Heap.Chunks.{
  remove, size_low, head_to_acme, tail_from_acme, init_free, tail_to_head, Chunk, chunk_size,
  split_prefix, split_suffix,
}
use evering.Talc.Heap.Availability.{toggle_avail, next_avail_bin_idx}

-- TalcMeta::bin_by_idx
abbrev pub bin_by_idx : Heap → ℕ → ℕ
bin_by_idx h idx = h.bins + 16 * idx

abbrev pub is_none : Option ℕ → Bool
is_none none = true
is_none (some x) = false

-- TalcMeta::insert_free
unfoldable pub insert_free : Geometry → ℕ → ℕ → Heap → Heap
unfolding bin load_link toggle_avail init_free
insert_free g head size h =
    let idx = bin g size in
    let place = bin_by_idx h idx in
    init_free head place size (if is_none (load_link h place) then toggle_avail idx h else h)

-- TalcMeta::remove_free
unfoldable pub remove_free : ℕ → ℕ → Heap → Heap
unfolding remove load_link toggle_avail
remove_free head idx h =
    let after = remove head h in
    if is_none (load_link after (bin_by_idx after idx)) then toggle_avail idx after else after

unfoldable pub remove_free_by_head : Geometry → ℕ → Heap → Heap
unfolding bin remove_free
remove_free_by_head g head h = remove_free head (bin g (size_low h head)) h

-- FreeNodeIter: the heads behind a link, `fuel` of them at most.
unfoldable pub heads : ℕ → Heap → Option ℕ → List ℕ
unfolding load_link
heads zero h link = []
heads (suc fuel) h none = []
heads (suc fuel) h (some head) = head ∷ heads fuel h (load_link h head)

-- Where a block of `size` at `align` would lie in the chunk of a head.
unfoldable pub fit : Heap → ℕ → ℕ → ℕ → Option ℕ
fit h size align head =
    let alloc_base = align_place h head align in
    if leb (chunk_size size) (size_low h head) && not (ltb word_size align)
    then some head
    else if leb (alloc_base + chunk_size size) (head_to_acme h head)
    then some alloc_base
    else none

unfoldable pub first_fit : Heap → ℕ → ℕ → List ℕ → Option (ℕ × ℕ)
unfolding fit
first_fit h size align [] = none
first_fit h size align (head ∷ rest) =
    let later = first_fit h size align rest in
    elim (fit h size align head) [ some place ↦ some (head, place) | none ↦ later ]

-- What `acquire_chunk` answers, and the class of the chunk.
pub record Acquired : Type 0 where
  pub chunk : Chunk
  pub alloc_base : ℕ
  pub alloc_acme : ℕ
  pub idx : ℕ

abbrev pub acquired : Heap → ℕ → ℕ → ℕ × ℕ → Acquired
acquired h size idx (head, place) = record {
  chunk = record { base = head; acme = head_to_acme h head };
  alloc_base = place;
  alloc_acme = align_place h (place + size) word_size;
  idx = idx;
}

-- The loop of `acquire_chunk` over the classes, without the removal of the chunk.
unfoldable pub acquire_from : Geometry → Heap → ℕ → ℕ → ℕ → ℕ → Option ℕ → Option Acquired
unfolding first_fit heads load_link next_avail_bin_idx
acquire_from g h size align fuel zero idx = none
acquire_from g h size align fuel (suc left) none = none
acquire_from g h size align fuel (suc left) (some idx) =
    let later = acquire_from g h size align fuel left (next_avail_bin_idx g h (idx + 1)) in
    elim (first_fit h size align (heads fuel h (load_link h (bin_by_idx h idx)))) [
      | some found ↦ some (acquired h size idx found)
      | none ↦ later
    ]

-- TalcMeta::acquire_chunk, with the removal of the chunk that is found.
abbrev pub take_chunk : Heap → Option Acquired → Option (Acquired × Heap)
take_chunk h none = none
take_chunk h (some a) = some (a, remove_free a.chunk.base a.idx h)

unfoldable pub acquire_chunk : Geometry → ℕ → Layout → Heap → Option (Acquired × Heap)
unfolding bin acquire_from next_avail_bin_idx remove_free
acquire_chunk g fuel layout h = take_chunk h (
    acquire_from g h layout.size layout.align fuel (g.bins + 1)
      (next_avail_bin_idx g h (bin g (chunk_size layout.size))))

abbrev pub insert_chunk : Geometry → Chunk → Heap → Heap
insert_chunk g c h = insert_free g c.base (c.acme - c.base) h

-- `allocate` once it has a chunk: the prefix, the suffix and the tag.
unfoldable pub put_prefix : Geometry → ℕ → Option Chunk → Heap → Heap
unfolding insert_free toggle_above_free
put_prefix g base (some prefix) h = insert_chunk g prefix h
put_prefix g base none h = clear_above_free (tag_from_acme base) h

unfoldable pub put_suffix : Geometry → ℕ → ℕ → Option Chunk → Heap → Heap
unfolding insert_free init_tag
put_suffix g tag base (some suffix) h = init_tag tag base true (insert_chunk g suffix h)
put_suffix g tag base none h = init_tag tag base false h

unfoldable pub carve : Geometry → Acquired → Heap → Heap
unfolding split_prefix split_suffix put_prefix put_suffix acme_tag
carve g a h =
    let (free, prefix) = split_prefix a.chunk a.alloc_base in
    let (kept, suffix, tag) = split_suffix free a.alloc_acme in
    acme_tag tag a.alloc_acme (put_suffix g tag kept.base suffix (put_prefix g free.base prefix h))

-- What `allocate` answers; `dangling` is for a size of zero.
pub data Block : Type 0 where
  dangling exhausted : Block
  placed : ℕ → Block

-- TalcMeta::allocate
abbrev pub carved : Geometry → Heap → Option (Acquired × Heap) → Block × Heap
carved g h none = (exhausted, h)
carved g h (some (a, after)) = (placed a.alloc_base, carve g a after)

unfoldable pub allocate : Geometry → ℕ → Layout → Heap → Block × Heap
unfolding acquire_chunk carve
allocate g fuel layout h =
    if layout.size == 0 then (dangling, h) else carved g h (acquire_chunk g fuel layout h)

-- `deallocate` joins the chunk with a free one below it and with one above.
unfoldable pub join_below : Geometry → Chunk → Heap → Chunk × Heap
unfolding remove_free_by_head toggle_above_free
join_below g c h =
    let prev = tag_from_acme c.base in
    let head = tail_to_head h (tail_from_acme c.base) in
    if is_allocated (load h prev)
    then (c, set_above_free prev h)
    else (record c { base = head }, remove_free_by_head g head h)

unfoldable pub join_above : Geometry → ℕ → Chunk × Heap → Chunk × Heap
unfolding remove_free_by_head
join_above g tag (c, h) =
    let next_size = size_low h c.acme in
    if is_above_free (load h tag)
    then (record c { acme = c.acme + next_size }, remove_free_by_head g c.acme h)
    else (c, h)

-- TalcMeta::deallocate
unfoldable pub deallocate : Geometry → ℕ → ℕ → Heap → Heap
unfolding from_alloc_base join_below join_above insert_free
deallocate g place size h =
    let tag = from_alloc_base h place size in
    let chunk : Chunk = record { base = to_base_rel (load h tag); acme = tag_to_acme tag } in
    let (c, after) = join_above g tag (join_below g chunk h) in
    if size == 0 then h else insert_chunk g c after
