-- ===== src/Talc/Heap/Stores.antt =====
-- src/talc.rs: the tags lie outside of the free chunks, so writing them keeps the free lists.
use evering.Base.{ℕ, ◌+◌, ◌≤◌, ◌≢◌, inr, refl, List, arith, update_ne}
use evering.Talc.Geometry.{Geometry}
use evering.Talc.Heap.Memory.{Heap, store}
use evering.Talc.Heap.Chunks.{node_size}
use evering.Talc.Heap.Availability.{avail_place}
use evering.Talc.Heap.Blocks.{bin_by_idx}
use evering.Talc.Heap.Free.{
  Clear, some_head, IsFree, Clear-Outside, Clear-In, IsFreeChunk-kept, IsIndexed-kept, lists-Large,
}
use evering.Talc.Heap.Linked.{Off, Linked-store}
use evering.Talc.Heap.Laid.{IsLaid}

module _ {g : Geometry} {h : Heap} {size : ℕ → ℕ} {lists : ℕ → List ℕ} (q v : ℕ)
    (behind : bin_by_idx h g.bins ≤ q) (clear : (i : ℕ) → Clear size q 8 (lists i)) where
  pub IsFree-store : IsFree g h size lists → IsFree g (store q v h) size lists
  IsFree-store x = record {
    indexed =
        IsIndexed-kept g h (store q v h) (λ i. some_head (lists i)) (λ i. some_head (lists i))
          (λ i l.
            update_ne h.words q (avail_place h i) v (omega (arith, l, behind, x.listed.metadata)))
          refl (λ k. refl) x.indexed;
    listed = record {
      linked = λ i l.
          Linked-store h q v (bin_by_idx h i) (lists i) (inr (omega (arith, l, behind)))
            (Clear-Outside size q 8 (lists i) (lists-Large x.listed i) (clear i))
            (x.listed.linked i l);
      sized = λ i n e.
          IsFreeChunk-kept g h (store q v h) size i n refl
            (λ k lo hi.
              update_ne h.words q k v
                (apart_word q k n (size n) (Clear-In size q 8 n (lists i) (clear i) e) lo hi))
            (x.listed.sized i n e);
      spread = x.listed.spread;
      apart = x.listed.apart;
      metadata = x.listed.metadata;
    };
  }
    where
      apart_word : (q k n s : ℕ) → Off q 8 n s → n + node_size ≤ k → k + 8 ≤ n + s → k ≢ q
      apart_word q k n s o lo hi = λ e. absurd (ground (arith, o, lo, hi, e))

  pub IsLaid-store : IsLaid g h size lists → IsLaid g (store q v h) size lists
  IsLaid-store x = record {
    base_words = x.base_words;
    size_words = x.size_words;
    front = x.front;
    fence = x.fence;
  }
