-- ===== src/Talc/Heap/Carved.antt =====
-- src/talc.rs: what is left when `allocate` has carved a block from a chunk that was free.
use evering.Base.{ℕ, ◌+◌, ◌-◌, ◌%◌, ◌≤◌, ◌<◌, ◌≡◌, inl, inr, List, arith}
use evering.Talc.Heap.Linked.{Off}
use evering.Talc.Geometry.{Geometry, bin}
use evering.Talc.Heap.Memory.{Heap, store}
use evering.Talc.Heap.Chunks.{min_chunk_size}
use evering.Talc.Heap.Blocks.{bin_by_idx, insert_chunk}
use evering.Talc.Heap.Free.{In, Clear, IsFree, Clear-part}
use evering.Talc.Heap.Laid.{
  IsLaid, insert_free-bins, In-longer, Clear-longer, resized, with_chunk, resized_new,
  insert_chunk-IsFree, insert_chunk-IsLaid, Clear-resized,
}
use evering.Talc.Heap.Stores.{IsFree-store, IsLaid-store}

-- The free lists, and a range of whole words behind the metadata that overlaps no free chunk.
pub record Holds (g : Geometry) (h : Heap) (size : ℕ → ℕ) (lists : ℕ → List ℕ) (base acme : ℕ)
    : Type 0 where
  pub free : IsFree g h size lists
  pub laid : IsLaid g h size lists
  pub clear : (i : ℕ) → Clear size base (acme - base) (lists i)
  pub front : bin_by_idx h g.bins + 8 ≤ base
  pub base_words : base % 8 ≡ 0
  pub acme_words : acme % 8 ≡ 0

-- Nor does a free chunk begin where the range ends.
abbrev pub Guarded : (ℕ → List ℕ) → ℕ → ℕ → Type 0
Guarded lists base acme = (i m : ℕ) → In m (lists i) → Off (m - 8) 8 base (acme - base)

-- A store inside of the range.
pub Holds-store :
    {g : Geometry} {h : Heap} {size : ℕ → ℕ} {lists : ℕ → List ℕ} {base acme : ℕ} (q v : ℕ)
    → base ≤ q
    → q + 8 ≤ acme
    → Holds g h size lists base acme
    → Holds g (store q v h) size lists base acme
Holds-store {g} {h} {size = size} {lists = lists} {base} {acme} q v lo hi x =
    let behind : bin_by_idx h g.bins ≤ q = omega (arith, x.front, lo) in
    let off = λ (i : ℕ).
      Clear-part size base (acme - base) q 8 (lists i) lo (omega (arith, hi, lo)) (x.clear i) in
    record {
      free = IsFree-store q v behind off x.free;
      laid = IsLaid-store q v behind off x.laid;
      clear = x.clear;
      front = x.front;
      base_words = x.base_words;
      acme_words = x.acme_words;
    }

-- A word before another place, apart from a range, is apart from a part of it.
narrowed :
    (base acme k lo hi : ℕ)
    → lo ≤ hi
    → base ≤ lo
    → hi ≤ acme
    → Off (k - 8) 8 base (acme - base)
    → Off (k - 8) 8 lo (hi - lo)
narrowed base acme k lo hi order a b o = ground (arith, order, a, b, o)

module _ {g : Geometry} {h : Heap} {size : ℕ → ℕ} {lists : ℕ → List ℕ} {base acme : ℕ}
    (some_class : 0 < g.bins) (x : Holds g h size lists base acme)
    (guard : Guarded lists base acme) where
  open x use {free, laid, clear, front, base_words, acme_words}

  -- The prefix is free again, and the rest is held.
  pub prefix_Holds :
      (m : ℕ)
      → base + min_chunk_size ≤ m
      → m ≤ acme
      → m % 8 ≡ 0
      → ((i : ℕ) → Clear size (base - 8) 8 (lists i))
      → (size' : ℕ → ℕ) × (lists' : ℕ → List ℕ) × Holds g
          (insert_chunk g (record { base = base; acme = m }) h)
          size'
          lists'
          m
          acme
        × Guarded lists' m acme
  prefix_Holds m least le m_words fenced =
      let clear_prefix : (i : ℕ) → Clear size base (m - base) (lists i) = λ i.
        Clear-part size base (acme - base) base (m - base) (lists i) (omega arith)
          (omega (arith, le, least)) (clear i) in
      let size' = resized free laid some_class base m least clear_prefix in
      let new = resized_new free laid some_class base m least clear_prefix in
      let same_bins = insert_free-bins g base (m - base) h in
      (
        size',
        with_chunk free laid some_class base m least clear_prefix,
        record {
          free =
              insert_chunk-IsFree free laid some_class base m least clear_prefix
                (omega (arith, front));
          laid =
              insert_chunk-IsLaid free laid some_class base m least clear_prefix front base_words
                m_words fenced
                (λ i k e.
                  narrowed base acme k base m (omega (arith, least)) (omega arith) le
                    (guard i k e));
          clear = λ i.
              Clear-longer size' lists (bin g (m - base)) base m (acme - m) i
                (inr (omega (arith, new, least)))
                (λ j. Clear-resized free laid some_class base m least clear_prefix m (acme - m) j (
                  Clear-part size base (acme - base) m (acme - m) (lists j) (omega (arith, least))
                    (omega (arith, le, least)) (clear j)));
          front = omega (arith, front, same_bins, least);
          base_words = m_words;
          acme_words = acme_words;
        },
        λ i k e. elim (In-longer lists (bin g (m - base)) base i k e) [
          | inl (same, _) ↦ inl (omega (arith, same, front, least))
          | inr e' ↦
              narrowed base acme k m acme le (omega (arith, least)) (omega arith) (guard i k e')
        ],
      )

  -- The suffix is free again, and the rest is held.
  pub suffix_Holds :
      (m : ℕ)
      → base + 8 ≤ m
      → m + min_chunk_size ≤ acme
      → m % 8 ≡ 0
      → (size' : ℕ → ℕ) × (lists' : ℕ → List ℕ) × Holds g
          (insert_chunk g (record { base = m; acme = acme }) h)
          size'
          lists'
          base
          m
  suffix_Holds m lo least m_words =
      let clear_suffix : (i : ℕ) → Clear size m (acme - m) (lists i) = λ i.
        Clear-part size base (acme - base) m (acme - m) (lists i) (omega (arith, lo))
          (omega (arith, lo, least)) (clear i) in
      let size' = resized free laid some_class m acme least clear_suffix in
      let same_bins = insert_free-bins g m (acme - m) h in
      (
        size',
        with_chunk free laid some_class m acme least clear_suffix,
        record {
          free =
              insert_chunk-IsFree free laid some_class m acme least clear_suffix
                (omega (arith, front, lo));
          laid =
              insert_chunk-IsLaid free laid some_class m acme least clear_suffix
                (omega (arith, front, lo)) m_words acme_words
                (λ i.
                  Clear-part size base (acme - base) (m - 8) 8 (lists i) (omega (arith, lo))
                    (omega (arith, lo, least)) (clear i))
                (λ i k e.
                  narrowed base acme k m acme (omega (arith, least)) (omega (arith, lo))
                    (omega arith) (guard i k e));
          clear = λ i.
              Clear-longer size' lists (bin g (acme - m)) m base (m - base) i
                (inl (omega (arith, lo)))
                (λ j.
                  Clear-resized free laid some_class m acme least clear_suffix base (m - base) j (
                    Clear-part size base (acme - base) base (m - base) (lists j) (omega arith)
                      (omega (arith, lo, least)) (clear j)));
          front = omega (arith, front, same_bins);
          base_words = base_words;
          acme_words = m_words;
        },
      )
