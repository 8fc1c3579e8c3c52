-- ===== src/Talc/Heap/Allocated.antt =====
-- src/talc.rs: what `allocate` answers, and what it leaves.
use evering.Base.{
  ℕ, ◌+◌, ◌-◌, ◌<◌, ◌≡◌, refl, sym, ◌∙◌, Bool, true, false, if◌then◌else◌, List, ◌∷◌, arith, update,
  subst, ◌++◌,
}
use evering.Talc.Geometry.{Geometry}
use evering.Talc.Heap.Memory.{Heap, load_link}
use evering.Talc.Heap.Chunks.{remove}
use evering.Talc.Heap.Availability.{toggle_avail}
use evering.Talc.Heap.Blocks.{bin_by_idx, is_none, remove_free}
use evering.Talc.Heap.Linked.{Off}
use evering.Talc.Heap.Free.{In, Clear, IsFree, Clear-In}
use evering.Talc.Heap.Removed.{remove-Settled, In-middle, In-shorter, Clear-shorter}
use evering.Talc.Heap.Taken.{remove_free-IsFree}
use evering.Talc.Heap.Laid.{IsLaid}
use evering.Talc.Heap.Carved.{Holds, Guarded}

maybe_cleared-bins :
    (c : Bool) (idx : ℕ) (h : Heap) → (if c then toggle_avail idx h else h).bins ≡ h.bins
unfolding toggle_avail
maybe_cleared-bins true idx h = refl
maybe_cleared-bins false idx h = refl

pub remove_free-bins : (head idx : ℕ) (h : Heap) → (remove_free head idx h).bins ≡ h.bins
unfolding remove_free
remove_free-bins head idx h =
    maybe_cleared-bins (is_none (load_link (remove head h) (bin_by_idx (remove head h) idx))) idx
      (remove head h)
    ∙ (remove-Settled h head).2

-- The chunk taken from its list is held.
pub taken_Holds :
    {g : Geometry} {h : Heap} {size : ℕ → ℕ} {lists : ℕ → List ℕ} (b n : ℕ) (xs ys : List ℕ)
    → b < g.bins
    → lists b ≡ xs ++ n ∷ ys
    → IsFree g h size lists
    → IsLaid g h size lists
    → let rest = update lists b (xs ++ ys) in
      Holds g (remove_free n b h) size rest n (n + size n)
      × Guarded rest n (n + size n)
      × ((i : ℕ) → Clear size (n - 8) 8 (rest i))
taken_Holds {g} {h} {size} {lists} b n xs ys l there x laid =
    let (free, clear) = remove_free-IsFree b n xs ys l there x in
    let same_bins = remove_free-bins n b h in
    let in_b : In n (lists b) = subst (λ ns. In n ns) (sym there) (In-middle n xs ys) in
    let old = In-shorter x.listed b n xs ys l there in
    let rest_Clear = Clear-shorter x.listed b n xs ys l there in
    let whole : n + size n - n ≡ size n = omega arith in
    (
      record {
        free = free;
        laid = record {
          base_words = λ i m e. laid.base_words i m (old i m e);
          size_words = λ i m e. laid.size_words i m (old i m e);
          front = λ i m e. omega (arith, same_bins, laid.front i m (old i m e));
          fence = λ i j m e. rest_Clear (m - 8) 8 j (laid.fence i j m (old i m e));
        };
        clear =
            λ i. subst (λ s. Clear size n s (update lists b (xs ++ ys) i)) (sym whole) (clear i);
        front = omega (arith, same_bins, laid.front b n in_b);
        base_words = laid.base_words b n in_b;
        acme_words = omega (arith, laid.base_words b n in_b, laid.size_words b n in_b);
      },
      λ i m e.
          subst (λ s. Off (m - 8) 8 n s) (sym whole)
            (Clear-In size (m - 8) 8 n (lists b) (laid.fence i b m (old i m e)) in_b),
      λ i. rest_Clear (n - 8) 8 i (laid.fence b i n in_b),
    )
