-- ===== src/Talc/Heap/Inserted.antt =====
-- src/talc.rs: `insert_free` keeps the free lists and what the availability words say of them.
use evering.Base.{
  ℕ, ◌≤◌, ◌<◌, ◌≡◌, inr, refl, sym, ap, ◌∙◌, Bool, not, if◌then◌else◌, none, List, [], ◌∷◌, arith,
  update, ℕ_discrete, eq→==, subst, ne→==,
}
use evering.Talc.Geometry.{Geometry, bin}
use evering.Talc.Heap.Memory.{Heap, load_link}
use evering.Talc.Heap.Chunks.{init_free, min_chunk_size}
use evering.Talc.Heap.Availability.{toggle_avail}
use evering.Talc.Heap.Blocks.{bin_by_idx, is_none, insert_free}
use evering.Talc.Heap.Index.{IsIndexed}
use evering.Talc.Heap.Toggle.{toggle_lem}
use evering.Talc.Heap.Free.{Clear, some_head, IsListed, IsFree, IsIndexed-kept, IsListed-kept}
use evering.Talc.Heap.Linked.{Linked}
use evering.Talc.Heap.Inserts.{insert-IsListed, insert-avails, insert-summary, toggle-keeps}

pub bin-lt : (g : Geometry) (size : ℕ) → 0 < g.bins → bin g size < g.bins
unfolding bin
bin-lt g size h = ground (arith, h)

-- The lists are as before once a class is toggled.
pub toggle-IsListed :
    {g : Geometry} {h : Heap} {size : ℕ → ℕ} {lists : ℕ → List ℕ} (idx : ℕ)
    → idx < g.bins
    → IsListed g h size lists
    → IsListed g (toggle_avail idx h) size lists
unfolding toggle_avail
toggle-IsListed {h = h} idx l x =
    IsListed-kept x (toggle_avail idx h) refl refl
      (λ q le. toggle-keeps h idx q (inr (omega (arith, le, l, x.metadata))))

module _ {g : Geometry} {size : ℕ → ℕ} {lists : ℕ → List ℕ} (b head : ℕ) (some_class : b < g.bins)
    (least : min_chunk_size ≤ size head) (class : bin g (size head) ≡ b)
    (clear : (i : ℕ) → Clear size head (size head) (lists i)) where
  -- The chunk put at its place, when the words say already that its class has one.
  put-IsFree :
      (h : Heap) {has : ℕ → Bool}
      → bin_by_idx h g.bins ≤ head
      → IsListed g h size lists
      → IsIndexed g h has
      → ((k : ℕ) → some_head (update lists b (head ∷ lists b) k) ≡ has k)
      → IsFree g
          (init_free head (bin_by_idx h b) (size head) h)
          size
          (update lists b (head ∷ lists b))
  put-IsFree h {has} behind x indexed same = record {
    indexed =
        IsIndexed-kept g h (init_free head (bin_by_idx h b) (size head) h) has
          (λ k. some_head (update lists b (head ∷ lists b) k))
          (insert-avails x b head some_class behind least class clear)
          (insert-summary x b head some_class behind least class clear) same indexed;
    listed = insert-IsListed x b head some_class behind least class clear;
  }

  -- The first chunk of a class, for which the words change, and a further one.
  put_cases :
      (h : Heap) (ns : List ℕ)
      → ns ≡ lists b
      → bin_by_idx h g.bins ≤ head
      → IsFree g h size lists
      → IsFree g
          (init_free head
            (bin_by_idx h b)
            (size head)
            (if is_none (load_link h (bin_by_idx h b)) then toggle_avail b h else h))
          size
          (update lists b (head ∷ lists b))
  unfolding toggle_avail
  put_cases h [] e behind x =
      let none_there : load_link h (bin_by_idx h b) ≡ none =
        subst (λ ns. Linked h (bin_by_idx h b) ns) (sym e) (x.listed.linked b some_class) in
      rw none_there (
        put-IsFree (toggle_avail b h) behind (toggle-IsListed b some_class x.listed)
          (toggle_lem x.indexed b some_class)
          (λ k. elim (ℕ_discrete k b) [
            | yes same ↦
                rw (eq→== k b same) (ap (λ ns. not (some_head ns)) (e ∙ ap lists (sym same)))
            | no n ↦ rw (ne→== k b n) refl
          ]))
  put_cases h (n ∷ ns) e behind x =
      let one_there =
        subst (λ ns. Linked h (bin_by_idx h b) ns) (sym e) (x.listed.linked b some_class) in
      rw one_there.0 (
        put-IsFree h behind x.listed x.indexed (λ k. elim (ℕ_discrete k b) [
          | yes same ↦
              rw (eq→== k b same) (ap some_head e ∙ ap (λ j. some_head (lists j)) (sym same))
          | no n ↦ rw (ne→== k b n) refl
        ]))

-- On a heap whose free lists are sound, of at least one class, `insert_free` of a chunk of at
-- least the least size, behind the metadata, that overlaps no free one puts it at the head of the
-- list of its class; the free lists are sound after it, the others as before, and the availability
-- words follow.
pub insert_free-IsFree :
    {g : Geometry} {h : Heap} {size : ℕ → ℕ} {lists : ℕ → List ℕ} (head : ℕ)
    → 0 < g.bins
    → min_chunk_size ≤ size head
    → bin_by_idx h g.bins ≤ head
    → ((i : ℕ) → Clear size head (size head) (lists i))
    → IsFree g h size lists
    → let b = bin g (size head) in
      IsFree g (insert_free g head (size head) h) size (update lists b (head ∷ lists b))
unfolding insert_free
insert_free-IsFree {g} {h} {size} {lists} head some_class least behind clear x =
    let b = bin g (size head) in
    put_cases b head (bin-lt g (size head) some_class) least refl clear h (lists b) refl behind x
