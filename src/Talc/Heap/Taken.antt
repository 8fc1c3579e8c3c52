-- ===== src/Talc/Heap/Taken.antt =====
-- src/talc.rs: `remove_free` keeps the free lists and what the availability words say of them.
use mathlib.Core.Path.{fun_ext}
use evering.Base.{
  ℕ, ◌<◌, ◌≡◌, refl, sym, ap, ◌∙◌, true, ◌==◌, if◌then◌else◌, none, List, [], ◌∷◌, update,
  ℕ_discrete, eq→==, subst, ◌++◌, ne→==,
}
use evering.Talc.Geometry.{Geometry}
use evering.Talc.Heap.Memory.{Heap, load_link}
use evering.Talc.Heap.Chunks.{remove}
use evering.Talc.Heap.Availability.{toggle_avail}
use evering.Talc.Heap.Blocks.{bin_by_idx, is_none, remove_free}
use evering.Talc.Heap.Index.{IsIndexed}
use evering.Talc.Heap.Toggle.{toggled, toggle_lem}
use evering.Talc.Heap.Free.{Clear, some_head, IsListed, IsFree, IsIndexed-kept}
use evering.Talc.Heap.Linked.{Linked}
use evering.Talc.Heap.Inserted.{toggle-IsListed}
use evering.Talc.Heap.Removed.{remove-IsListed, remove-avails, remove-fields, remove-Clear}

some_middle : (n : ℕ) (xs ys : List ℕ) → some_head (xs ++ n ∷ ys) ≡ true
some_middle n [] ys = refl
some_middle n (x ∷ xs) ys = refl

-- The words follow a class that has lost its last chunk.
taken_cases :
    {g : Geometry} {size : ℕ → ℕ} {lists : ℕ → List ℕ} (h : Heap) (b : ℕ) (ns : List ℕ)
    → b < g.bins
    → IsListed g h size lists
    → ns ≡ lists b
    → IsIndexed g h (λ k. if k == b then true else some_head (lists k))
    → IsFree g (if is_none (load_link h (bin_by_idx h b)) then toggle_avail b h else h) size lists
taken_cases {g} {size} {lists} h b [] l x e indexed =
    let none_there : load_link h (bin_by_idx h b) ≡ none =
      subst (λ ns. Linked h (bin_by_idx h b) ns) (sym e) (x.linked b l) in
    rw none_there (record {
      indexed =
          subst (λ has. IsIndexed g (toggle_avail b h) has) (fun_ext same) (toggle_lem indexed b l);
      listed = toggle-IsListed b l x;
    })
  where
    same :
        (k : ℕ)
        → toggled b (λ k. if k == b then true else some_head (lists k)) k ≡ some_head (lists k)
    same k = elim (ℕ_discrete k b) [
      | yes e' ↦ rw (eq→== k b e') (ap some_head (e ∙ ap lists (sym e')))
      | no n ↦ rw (ne→== k b n) refl
    ]
taken_cases {g} {size} {lists} h b (n ∷ ns) l x e indexed =
    let one_there = subst (λ ns. Linked h (bin_by_idx h b) ns) (sym e) (x.linked b l) in
    rw one_there.0
      (record { indexed = subst (λ has. IsIndexed g h has) (fun_ext same) indexed; listed = x })
  where
    same : (k : ℕ) → (if k == b then true else some_head (lists k)) ≡ some_head (lists k)
    same k = elim (ℕ_discrete k b) [
      | yes e' ↦ rw (eq→== k b e') (ap some_head (e ∙ ap lists (sym e')))
      | no n ↦ rw (ne→== k b n) refl
    ]

-- On a heap whose free lists are sound, `remove_free` of a chunk of a class takes it out of the
-- list of the class, wherever it stands there; the free lists are sound after it, the others as
-- before, the availability words follow, and the chunk overlaps none that is still free.
pub remove_free-IsFree :
    {g : Geometry} {h : Heap} {size : ℕ → ℕ} {lists : ℕ → List ℕ} (b n : ℕ) (xs ys : List ℕ)
    → b < g.bins
    → lists b ≡ xs ++ n ∷ ys
    → IsFree g h size lists
    → IsFree g (remove_free n b h) size (update lists b (xs ++ ys))
      × ((i : ℕ) → Clear size n (size n) (update lists b (xs ++ ys) i))
unfolding remove_free
remove_free-IsFree {g} {h} {size} {lists} b n xs ys l there x = (
  taken_cases (remove n h) b (update lists b (xs ++ ys) b) l
      (remove-IsListed x.listed b n xs ys l there) refl
      (IsIndexed-kept g h (remove n h) (λ k. some_head (lists k))
        (λ k. if k == b then true else some_head (update lists b (xs ++ ys) k))
        (remove-avails x.listed b n xs ys l there) (remove-fields x.listed b n xs ys l there).0 same
        x.indexed),
  remove-Clear x.listed b n xs ys l there,
)
  where
    same :
        (k : ℕ)
        → (if k == b then true else some_head (update lists b (xs ++ ys) k)) ≡ some_head (lists k)
    same k = elim (ℕ_discrete k b) [
      | yes e ↦ rw (eq→== k b e) (sym (ap some_head (ap lists e ∙ there) ∙ some_middle n xs ys))
      | no ne ↦ rw (ne→== k b ne) refl
    ]
