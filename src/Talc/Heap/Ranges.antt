-- ===== src/Talc/Heap/Ranges.antt =====
-- src/talc.rs: ranges of memory that no free chunk overlaps, as `deallocate` joins them.
use evering.Base.{
  ℕ, ◌+◌, ◌-◌, ◌/◌, ◌≤◌, ◌<◌, ◌≡◌, ◌≢◌, inl, inr, refl, sym, ap, ◌∙◌, Bool, true, false,
  if◌then◌else◌, List, [], ◌∷◌, arith, dec_lt, subst, ◌++◌,
}
use evering.Talc.Geometry.{Geometry}
use evering.Talc.Heap.Memory.{Heap, load, load_link}
use evering.Talc.Heap.Chunks.{remove}
use evering.Talc.Heap.Availability.{avail_place, toggle_avail}
use evering.Talc.Heap.Blocks.{bin_by_idx, is_none, remove_free}
use evering.Talc.Heap.Linked.{Off, Outside, Linked, remove-Kept}
use evering.Talc.Heap.Free.{
  In, Clear, some_head, IsListed, IsFree, Large, Clear-Outside, lists-Large,
}
use evering.Talc.Heap.Removed.{remove-Settled}
use evering.Talc.Heap.Inserts.{toggle-keeps}

pub In-split : (n : ℕ) (ns : List ℕ) → In n ns → (xs : List ℕ) × (ys : List ℕ) × (ns ≡ xs ++ n ∷ ys)
In-split n [] e = absurd e
In-split n (m ∷ ms) (inl e) = ([], ms, ap (λ k. k ∷ ms) (sym e))
In-split n (m ∷ ms) (inr e) = let (xs, ys, s) = In-split n ms e in (m ∷ xs, ys, ap (λ r. m ∷ r) s)

pub In-keep : (m n : ℕ) (xs ys : List ℕ) → m ≢ n → In m (xs ++ n ∷ ys) → In m (xs ++ ys)
In-keep m n [] ys ne (inl e) = absurd (ne e)
In-keep m n [] ys ne (inr e) = e
In-keep m n (x ∷ xs) ys ne (inl e) = inl e
In-keep m n (x ∷ xs) ys ne (inr e) = inr (In-keep m n xs ys ne e)

pub Clear-each :
    (size : ℕ → ℕ) (q l : ℕ) (ns : List ℕ)
    → ((n : ℕ) → In n ns → Off q l n (size n))
    → Clear size q l ns
Clear-each size q l [] each = tt
Clear-each size q l (n ∷ ns) each =
    (each n (inl refl), Clear-each size q l ns (λ m e. each m (inr e)))

Off-both : (q l l' n s : ℕ) → 0 < s → Off q l n s → Off (q + l) l' n s → Off q (l + l') n s
Off-both q l l' n s pos o o' = ground (arith, pos, o, o')

-- Two ranges that follow each other.
Clear-union :
    (size : ℕ → ℕ) (q l l' : ℕ) (ns : List ℕ)
    → Large size ns
    → Clear size q l ns
    → Clear size (q + l) l' ns
    → Clear size q (l + l') ns
Clear-union size q l l' [] large c c' = tt
Clear-union size q l l' (n ∷ ns) large (c, cs) (c', cs') = (
  Off-both q l l' n (size n) (omega (arith, large n (inl refl))) c c',
  Clear-union size q l l' ns (λ m e. large m (inr e)) cs cs',
)

pub Clear-joined :
    (size : ℕ → ℕ) (lo mid hi : ℕ) (ns : List ℕ)
    → Large size ns
    → lo ≤ mid
    → mid ≤ hi
    → Clear size lo (mid - lo) ns
    → Clear size mid (hi - mid) ns
    → Clear size lo (hi - lo) ns
Clear-joined size lo mid hi ns large a b c c' =
    subst (λ l. Clear size lo l ns) (lengths lo mid hi a b)
      (Clear-union size lo (mid - lo) (hi - mid) ns large c
        (subst (λ q. Clear size q (hi - mid) ns) (middle lo mid a) c'))
  where
    lengths : (lo mid hi : ℕ) → lo ≤ mid → mid ≤ hi → mid - lo + (hi - mid) ≡ hi - lo
    lengths lo mid hi a b = omega (arith, a, b)

    middle : (lo mid : ℕ) → lo ≤ mid → mid ≡ lo + (mid - lo)
    middle lo mid a = omega (arith, a)

-- Whoever is in a list is of a class that there is.
pub In-lt :
    {g : Geometry} {h : Heap} {size : ℕ → ℕ} {lists : ℕ → List ℕ} (i n : ℕ)
    → IsFree g h size lists
    → In n (lists i)
    → i < g.bins
In-lt {g} {lists = lists} i n x e = elim (dec_lt i g.bins) [
  | yes l ↦ l
  | no l ↦ absurd (nobody (lists i) (x.indexed.bounded i (omega (arith, l))) e)
]
  where
    nobody : (ns : List ℕ) → some_head ns ≡ false → In n ns → ⊥
    nobody [] e i = i
    nobody (m ∷ ms) e i = absurd (ground (arith, e))

maybe_toggled-keeps :
    (c : Bool) (idx q : ℕ) (h : Heap)
    → Off q 8 (avail_place h (idx / 64)) 8
    → load (if c then toggle_avail idx h else h) q ≡ load h q
maybe_toggled-keeps true idx q h o = toggle-keeps h idx q o
maybe_toggled-keeps false idx q h o = refl

-- A word behind the metadata and outside of the nodes of its class stays when a chunk leaves.
pub remove_free-keeps :
    {g : Geometry} {h : Heap} {size : ℕ → ℕ} {lists : ℕ → List ℕ} (b n q : ℕ)
    → IsListed g h size lists
    → b < g.bins
    → In n (lists b)
    → bin_by_idx h g.bins ≤ q
    → Clear size q 8 (lists b)
    → load (remove_free n b h) q ≡ load h q
unfolding remove_free
remove_free-keeps {g} {h} {size} {lists} b n q x l e behind clear =
    let (xs, ys, there) = In-split n (lists b) e in
    let outside = Clear-Outside size q 8 (lists b) (lists-Large x b) clear in
    let fields = remove-Settled h n in
    maybe_toggled-keeps (is_none (load_link (remove n h) (bin_by_idx (remove n h) b))) b q
      (remove n h) (inr (omega (arith, fields.1, behind, x.metadata, l)))
    ∙ remove-Kept h (bin_by_idx h b) n xs ys q (inr (omega (arith, behind, l)))
        (subst (λ ns. Outside q 8 ns) there outside)
        (subst (λ ns. Linked h (bin_by_idx h b) ns) there (x.linked b l))
