-- ===== src/Talc/Heap/Allocation.antt =====
-- src/talc.rs: what `allocate` answers, on every path.
use evering.Base.{
  ℕ, ◌+◌, ◌-◌, ◌%◌, ◌≤◌, ◌<◌, ◌≡◌, inl, inr, refl, sym, ap, ◌∙◌, ◌==◌, if◌then◌else◌, Option, none,
  some, List, arith, update, length, Bool-cases, subst, ◌++◌, ==→eq,
}
use evering.Pool.Layouts.{Layout}
use evering.Talc.Geometry.{Geometry, bin}
use evering.Talc.Heap.Memory.{Heap, word_size, align_place, acme_tag}
use evering.Talc.Heap.Chunks.{min_chunk_size, chunk_size, split_prefix, split_suffix}
use evering.Talc.Heap.Availability.{next_avail_bin_idx}
use evering.Talc.Heap.Blocks.{
  take_chunk, carved, remove_free, fit, Acquired, acquire_from, acquire_chunk, carve, Block,
  allocate, dangling, exhausted, placed,
}
use evering.Talc.Heap.Free.{In, Clear, IsFree, Clear-part}
use evering.Talc.Heap.Next.{next_lem}
use evering.Talc.Heap.Removed.{In-middle}
use evering.Talc.Heap.Search.{Acquires, acquire_from_lem}
use evering.Talc.Heap.Fits.{fit_lem}
use evering.Talc.Heap.Laid.{IsLaid}
use evering.Talc.Heap.Carved.{Holds, Guarded, Holds-store}
use evering.Talc.Heap.Carving.{prefix_lem, suffix_lem}
use evering.Talc.Heap.Allocated.{taken_Holds}

-- The end of a block that starts at a whole word.
end_facts :
    (h : Heap) (place size : ℕ)
    → h.origin % 8 ≡ 0
    → place % 8 ≡ 0
    → 0 < size
    → let acme = align_place h (place + size) word_size in
      (acme % 8 ≡ 0) × (place + size ≤ acme) × (acme + 8 ≤ place + chunk_size size)
end_facts h place size origin_words words pos = ground (arith, origin_words, words, pos)

room_facts : (size : ℕ) → min_chunk_size ≤ chunk_size size
room_facts size = ground arith

module _ {g : Geometry} {h : Heap} {size : ℕ → ℕ} {lists : ℕ → List ℕ} {base acme : ℕ}
    (some_class : 0 < g.bins) (x : Holds g h size lists base acme)
    (guard : Guarded lists base acme) where
  -- The block lies in what is held of the chunk; the rest of it is free again.
  carve_lem :
      (place alloc_acme idx : ℕ)
      → ((i : ℕ) → Clear size (base - 8) 8 (lists i))
      → base ≤ place
      → place % 8 ≡ 0
      → place + min_chunk_size ≤ acme
      → alloc_acme % 8 ≡ 0
      → place ≤ alloc_acme
      → alloc_acme + 8 ≤ acme
      → let after =
          carve g
            (record {
              chunk = record { base = base; acme = acme };
              alloc_base = place;
              alloc_acme = alloc_acme;
              idx = idx;
            })
            h in
        (size' : ℕ → ℕ) × (lists' : ℕ → List ℕ) × (lo : ℕ) × (hi : ℕ) × Holds g after size' lists'
          lo hi
        × (lo ≤ place)
        × (alloc_acme + 8 ≤ hi)
  unfolding carve acme_tag
  carve_lem place alloc_acme idx fenced le words room acme_words order within =
      let (free, prefix) = split_prefix (record { base = base; acme = acme }) place in
      let (same, lo_le, lo_room, (size1, lists1, held1, guard1)) =
        prefix_lem some_class x guard place fenced le words (omega (arith, le, room)) in
      let (kept, suffix, tag) = split_suffix free alloc_acme in
      let (tag_le, (size2, lists2, held2)) =
        suffix_lem some_class held1 guard1 alloc_acme (omega (arith, lo_le, order)) acme_words
          (omega (arith, same, within)) lo_room in
      (
        size2,
        lists2,
        free.base,
        tag + 8,
        elim (Bool-cases (tag == alloc_acme)) [
          | inl e ↦ rw e held2
          | inr e ↦ rw e (
              Holds-store alloc_acme tag (omega (arith, lo_le, order)) (omega (arith, tag_le))
                held2)
        ],
        lo_le,
        omega (arith, tag_le),
      )

-- What `allocate` answers, and the heap that it leaves.
abbrev pub Allocates : Geometry → Heap → (ℕ → ℕ) → (ℕ → List ℕ) → Layout → Block × Heap → Type 0
Allocates g h size lists layout (dangling, after) = (layout.size ≡ 0) × (after ≡ h)
Allocates g h size lists layout (exhausted, after) =
    (after ≡ h)
    × ((i n : ℕ)
        → bin g (chunk_size layout.size) ≤ i
        → In n (lists i)
        → fit h layout.size layout.align n ≡ none)
Allocates g h size lists layout (placed place, after) =
    ((b : ℕ) × (n : ℕ) × In n (lists b) × (n ≤ place) × (place + layout.size ≤ n + size n))
    × (word_size < layout.align → (h.origin + place) % layout.align ≡ 0)
    × ((size' : ℕ → ℕ) × (lists' : ℕ → List ℕ) × IsFree g after size' lists'
        × IsLaid g after size' lists'
        × ((i : ℕ) → Clear size' place layout.size (lists' i)))

module _ {g : Geometry} {h : Heap} {size : ℕ → ℕ} {lists : ℕ → List ℕ} (x : IsFree g h size lists)
    (laid : IsLaid g h size lists) (some_class : 0 < g.bins) (origin_words : h.origin % 8 ≡ 0)
    (layout : Layout) (align_pos : 0 < layout.align)
    (power : word_size < layout.align → layout.align % 8 ≡ 0) (pos : 0 < layout.size) where
  acquired_lem :
      (found : Option Acquired)
      → Acquires h layout.size layout.align g.bins (bin g (chunk_size layout.size)) lists found
      → Allocates g h size lists layout (carved g h (take_chunk h found))
  acquired_lem none f = (refl, f)
  acquired_lem (some a) (xs, ys, lo, In-lt, there, fits, acme_is, alloc_is, before) =
      let n = a.chunk.base in
      let in_b : In n (lists a.idx) = subst (λ ns. In n ns) (sym there) (In-middle n xs ys) in
      let chunk = x.listed.sized a.idx n in_b in
      let fit_at =
        fit_lem h layout.size layout.align n align_pos power origin_words
          (laid.base_words a.idx n in_b) fits in
      let ends : a.chunk.acme ≡ n + size n = acme_is ∙ ap (λ s. n + s) chunk.low in
      let (held, guard, fenced) = taken_Holds a.idx n xs ys In-lt there x laid in
      let rest = update lists a.idx (xs ++ ys) in
      let (acme_words, acme_ge, acme_le) =
        end_facts h a.alloc_base layout.size origin_words fit_at.words pos in
      let within = fit_at.within in
      let (size', lists', lo', hi', kept, lo_le, hi_le) =
        carve_lem some_class
          (subst (λ e. Holds g (remove_free n a.idx h) size rest n e) (sym ends) held)
          (subst (λ e. Guarded rest n e) (sym ends) guard) a.alloc_base a.alloc_acme a.idx fenced
          fit_at.from fit_at.words (omega (arith, acme_is, within, room_facts layout.size))
          (ap (λ e. e % 8) alloc_is ∙ acme_words) (omega (arith, alloc_is, acme_ge))
          (omega (arith, alloc_is, acme_le, within, acme_is)) in
      (
        (a.idx, n, in_b, fit_at.from, omega (arith, ends, acme_is, within, acme_ge, acme_le)),
        fit_at.aligned,
        (
          size',
          lists',
          kept.free,
          kept.laid,
          λ i.
              Clear-part size' lo' (hi' - lo') a.alloc_base layout.size (lists' i) lo_le
                (omega (arith, lo_le, hi_le, alloc_is, acme_ge)) (kept.clear i),
        ),
      )

-- On a heap whose free lists are sound (`IsFree`, `IsLaid`), of at least one class and at an
-- address of whole words, for an alignment of whole words where it exceeds a word and with fuel
-- for the nodes of each list, `allocate` does one of three things. For a size of zero it answers a
-- dangling pointer and changes nothing. Or it answers that the heap is exhausted, changes nothing,
-- and no free chunk of the classes from that of the request on has room for it. Or it answers a
-- block that lies in a chunk that was free, at a multiple of its alignment where that exceeds a
-- word; the free lists are sound after it, and no free chunk overlaps the block.
pub allocate_lem :
    {g : Geometry} {h : Heap} {size : ℕ → ℕ} {lists : ℕ → List ℕ} (fuel : ℕ) (layout : Layout)
    → IsFree g h size lists
    → IsLaid g h size lists
    → 0 < g.bins
    → h.origin % 8 ≡ 0
    → 0 < layout.align
    → (word_size < layout.align → layout.align % 8 ≡ 0)
    → ((i : ℕ) → length (lists i) ≤ fuel)
    → Allocates g h size lists layout (allocate g fuel layout h)
unfolding allocate acquire_chunk
allocate_lem {g} {h} {size} {lists} fuel layout x laid some_class origin_words align_pos power
      enough =
    elim (Bool-cases (layout.size == 0)) [
      | inl e ↦ rw e (==→eq layout.size 0 e, refl)
      | inr e ↦
          let lo = bin g (chunk_size layout.size) in
          subst
            (λ b.
              Allocates g h size lists layout
                (if b then (dangling, h) else carved g h (acquire_chunk g fuel layout h)))
            (sym e)
            (acquired_lem x laid some_class origin_words layout align_pos power (ground (arith, e))
              (acquire_from g h layout.size layout.align fuel (g.bins + 1)
                (next_avail_bin_idx g h lo))
              (acquire_from_lem x layout.size layout.align fuel enough (g.bins + 1) lo
                (next_avail_bin_idx g h lo) (omega arith) (next_lem x.indexed lo)))
    ]
