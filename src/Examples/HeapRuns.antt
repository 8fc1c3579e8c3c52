-- ===== src/Examples/HeapRuns.antt =====
-- A heap of src/talc.rs of 256 kB, claimed in empty memory, and blocks in it.
use evering.Base.{
  ℕ, ◌+◌, ◌-◌, ◌%◌, ◌≤◌, ◌<◌, ◌≡◌, refl, sym, ap, some, List, [], ◌∷◌, ok, arith, update, length,
  ℕ_discrete, eq→==, subst, ne→==, false, if◌then◌else◌, true, inl,
}
use evering.Pool.Layouts.{Layout, ilog2}
use evering.Talc.Geometry.{Geometry, bin, bin_index, exponential_bin, validate, sound, covers}
use evering.Talc.Heap.Memory.{Heap, store, tag_word, is_allocated, from_alloc_base, load}
use evering.Talc.Heap.Availability.{next_avail_bin_idx}
use evering.Talc.Heap.Blocks.{
  bin_by_idx, insert_free, remove_free, Block, allocate, deallocate, placed,
}
use evering.Talc.Heap.Claim.{Config, geometry_of, claim, null_heap}
use evering.Talc.Heap.Free.{Clear, some_head, IsFree, In}
use evering.Talc.Heap.Laid.{IsLaid}
use evering.Talc.Heap.Index.{IsNext}
use evering.Talc.Heap.Next.{next_lem}
use evering.Talc.Heap.Taken.{remove_free-IsFree}
use evering.Talc.Heap.Inserted.{insert_free-IsFree}
use evering.Talc.Heap.Claimed.{no_lists, one_chunk}
use evering.Talc.Heap.Carved.{Holds, Holds-store}
use evering.Talc.Heap.Allocated.{taken_Holds}
use evering.Talc.Heap.Deallocated.{IsBlock, Freed, deallocate_lem}
use evering.Talc.Heap.Allocation.{Allocates, allocate_lem}

abbrev kb256 : Geometry
kb256 = record {
  bins = 25;
  linear = 16;
  linear_shift = 6;
  exponential_log = 10;
  divisions_log = 0;
  reserved = 0;
}

abbrev conf : Config
conf = record { forward = 0; size = 262144; geometry = some kb256 }

abbrev memory : Heap
memory = null_heap 4096 (λ place. 7)

abbrev heap : Heap
heap = (claim conf memory).1

abbrev hundred : Layout
hundred = record { size = 100; align = 64 }

abbrev first_block : Block × Heap
first_block = allocate kb256 4 hundred heap

-- The block lies behind the metadata, at a multiple of 64.
first_placed : first_block.0 ≡ placed 448
unfolding claim validate allocate
first_placed = refl

abbrev second_block : Block × Heap
second_block = allocate kb256 4 hundred first_block.1

-- A second block lies behind the first; when both are freed, a block as large as both fits there again.
second_placed : second_block.0 ≡ placed 576
unfolding claim validate allocate
second_placed = refl

abbrev freed : Heap
freed = deallocate kb256 448 100 (deallocate kb256 576 100 second_block.1)

freed_placed : (allocate kb256 4 (record { size = 261000; align = 8 }) freed).0 ≡ placed 448
unfolding claim validate allocate deallocate
freed_placed = refl

geometry_fits : geometry_of conf.size conf.geometry ≡ ok kb256
unfolding validate sound covers bin bin_index exponential_bin ilog2
geometry_fits = refl

abbrev sizes : ℕ → ℕ
sizes = update (λ _. 0) 448 261720

abbrev lists : ℕ → List ℕ
lists = update no_lists (bin kb256 261720) (448 ∷ [])

one_chunk_example :
    ((claim conf memory).0 ≡ ok tt)
    × ((sizes : ℕ → ℕ) × (lists : ℕ → List ℕ) × IsFree kb256 heap sizes lists
        × IsLaid kb256 heap sizes lists
        × (448 + 32 ≤ 262168)
        × (sizes 448 ≡ 262168 - 448)
        × (lists ≡ update no_lists (bin kb256 (262168 - 448)) (448 ∷ [])))
one_chunk_example = one_chunk conf kb256 memory geometry_fits refl refl refl

-- The chunks of the heap before any block.
abbrev state :
    (sizes : ℕ → ℕ) × (lists : ℕ → List ℕ) × IsFree kb256 heap sizes lists
    × IsLaid kb256 heap sizes lists
    × (448 + 32 ≤ 262168)
    × (sizes 448 ≡ 262168 - 448)
    × (lists ≡ update no_lists (bin kb256 (262168 - 448)) (448 ∷ []))
state = (one_chunk conf kb256 memory geometry_fits refl refl refl).1

one_each : (b i : ℕ) → length (update no_lists b (448 ∷ []) i) ≤ 4
one_each b i = elim (ℕ_discrete i b) [
  | yes e ↦ rw (eq→== i b e) (omega arith)
  | no n ↦ rw (ne→== i b n) (omega arith)
]

few_each : (i : ℕ) → length (state.1 i) ≤ 4
few_each i = subst (λ l. length (l i) ≤ 4) (sym state.6) (one_each (bin kb256 (262168 - 448)) i)

heap_words : heap.origin % 8 ≡ 0
unfolding claim validate
heap_words = refl

allocate_lem_example : Allocates kb256 heap state.0 state.1 hundred (allocate kb256 4 hundred heap)
allocate_lem_example =
    allocate_lem 4 hundred state.2 state.3 (omega arith) heap_words (omega arith) (λ _. refl)
      few_each

next_lem_example : IsNext (λ i. some_head (state.1 i)) 25 3 (next_avail_bin_idx kb256 heap 3)
next_lem_example = next_lem (state.2).indexed 3

abbrev only_class : ℕ
only_class = bin kb256 (262168 - 448)

only_chunk : state.1 only_class ≡ 448 ∷ []
unfolding bin bin_index exponential_bin ilog2
only_chunk = ap (λ (l : ℕ → List ℕ). l only_class) state.6

in_class : only_class < 25
unfolding bin bin_index exponential_bin ilog2
in_class = omega arith

remove_free-IsFree_example :
    IsFree kb256 (remove_free 448 only_class heap) state.0 (update state.1 only_class [])
    × ((i : ℕ) → Clear state.0 448 (state.0 448) (update state.1 only_class [] i))
remove_free-IsFree_example = remove_free-IsFree only_class 448 [] [] in_class only_chunk state.2

-- The chunk put back where it was.
abbrev taken :
    IsFree kb256 (remove_free 448 only_class heap) state.0 (update state.1 only_class [])
    × ((i : ℕ) → Clear state.0 448 (state.0 448) (update state.1 only_class [] i))
taken = remove_free-IsFree only_class 448 [] [] in_class only_chunk state.2

behind_metadata : bin_by_idx (remove_free 448 only_class heap) 25 ≤ 448
unfolding claim validate remove_free bin bin_index exponential_bin ilog2
behind_metadata = omega arith

insert_free-IsFree_example :
    IsFree kb256 (insert_free kb256 448 (state.0 448) (remove_free 448 only_class heap)) state.0 (
      update
        (update state.1 only_class [])
        (bin kb256 (state.0 448))
        (448 ∷ update state.1 only_class [] (bin kb256 (state.0 448))))
insert_free-IsFree_example =
    insert_free-IsFree 448 (omega arith) (omega (arith, state.5)) behind_metadata taken.1 taken.0

-- The whole chunk held as one block, its tag in its last word.
abbrev held_heap : Heap
held_heap = store 262160 (tag_word 448 false) (remove_free 448 only_class heap)

abbrev none_free : ℕ → List ℕ
none_free = update state.1 only_class []

nobody-In : (i n : ℕ) → In n (none_free i) → ⊥
nobody-In i n e = elim (ℕ_discrete i only_class) [
  | yes same ↦ subst (λ b. In n (if b then [] else state.1 i)) (eq→== i only_class same) e
  | no ne ↦
      let only = subst (λ b. In n (if b then [] else state.1 i)) (ne→== i only_class ne) e in
      let at_start = subst (λ (l : ℕ → List ℕ). In n (l i)) state.6 only in
      subst (λ b. In n (if b then 448 ∷ [] else [])) (ne→== i only_class ne) at_start
]

whole_chunk : Holds kb256 held_heap state.0 none_free 448 (262160 + 8)
whole_chunk = Holds-store 262160 (tag_word 448 false) (omega arith) (omega arith) (
    subst (λ a. Holds kb256 (remove_free 448 only_class heap) state.0 none_free 448 a)
      (omega (arith, state.5))
      (taken_Holds only_class 448 [] [] in_class only_chunk state.2 state.3).0)

tag_before : is_allocated (load held_heap 440) ≡ true
unfolding claim validate remove_free bin bin_index exponential_bin ilog2 tag_word
tag_before = refl

tag_found : from_alloc_base held_heap 448 261712 ≡ 262160
unfolding claim validate remove_free bin bin_index exponential_bin ilog2 tag_word from_alloc_base
tag_found = refl

whole-IsBlock : IsBlock kb256 held_heap state.0 none_free 448 262160 false
whole-IsBlock = record {
  held = whole_chunk;
  room = omega arith;
  tagged = refl;
  next = λ i. nobody-In i 262168;
  prev = inl (tag_before, λ i n e. absurd (nobody-In i n e));
}

deallocate_lem_example : Freed kb256 (deallocate kb256 448 261712 held_heap) 448 262168
deallocate_lem_example =
    deallocate_lem 448 261712 (omega arith) (omega arith) tag_found whole-IsBlock
