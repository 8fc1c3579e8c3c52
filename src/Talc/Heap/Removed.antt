-- ===== src/Talc/Heap/Removed.antt =====
-- src/talc.rs: `remove_free` takes a chunk out of the list of its class and leaves the others.
use evering.Base.{
  ℕ, ◌+◌, ◌*◌, ◌≤◌, ◌<◌, ◌≡◌, ◌≢◌, inl, inr, refl, sym, ap, ◌∙◌, Option, none, some, List, [], ◌∷◌,
  arith, update, ℕ_discrete, eq→==, subst, ◌++◌, update_ne,
}
use evering.Talc.Geometry.{Geometry, availability_words}
use evering.Talc.Heap.Memory.{Heap, load, load_link, store_link}
use evering.Talc.Heap.Chunks.{node_size, prev_next, unlink, remove}
use evering.Talc.Heap.Availability.{avail_place, avail_word}
use evering.Talc.Heap.Blocks.{bin_by_idx}
use evering.Talc.Heap.Free.{
  In, Clear, Spread, IsFreeChunk, IsListed, Clear-In, Off-swap, behind_node, IsFreeChunk-kept,
  Same-kept, Settled, lists_above, lists-Large, lists-Distinct, lists_apart,
}
use evering.Talc.Heap.Linked.{
  Off, Outside, Distinct, Linked, Linked-Same, remove-Kept, remove-Linked,
}

unlink-Settled : (h : Heap) (p : ℕ) (link : Option ℕ) → Settled h (unlink link p h)
unfolding store_link
unlink-Settled h p none = (refl, refl, refl, refl)
unlink-Settled h p (some x) = (refl, refl, refl, refl)

pub remove-Settled : (h : Heap) (n : ℕ) → Settled h (remove n h)
unfolding remove
remove-Settled h n = unlink-Settled h (load h (prev_next n)) (load_link h n)

-- A member of a list without one of its nodes.
pub In-without : (m n : ℕ) (xs ys : List ℕ) → In m (xs ++ ys) → In m (xs ++ n ∷ ys)
In-without m n [] ys e = inr e
In-without m n (x ∷ xs) ys (inl e) = inl e
In-without m n (x ∷ xs) ys (inr e) = inr (In-without m n xs ys e)

pub In-middle : (n : ℕ) (xs ys : List ℕ) → In n (xs ++ n ∷ ys)
In-middle n [] ys = inl refl
In-middle n (x ∷ xs) ys = inr (In-middle n xs ys)

pub Clear-without :
    (size : ℕ → ℕ) (q l n : ℕ) (xs ys : List ℕ)
    → Clear size q l (xs ++ n ∷ ys)
    → Clear size q l (xs ++ ys)
Clear-without size q l n [] ys c = c.1
Clear-without size q l n (x ∷ xs) ys (c, cs) = (c, Clear-without size q l n xs ys cs)

pub Spread-without :
    (size : ℕ → ℕ) (n : ℕ) (xs ys : List ℕ) → Spread size (xs ++ n ∷ ys) → Spread size (xs ++ ys)
Spread-without size n [] ys s = s.1
Spread-without size n (x ∷ xs) ys (c, s) =
    (Clear-without size x (size x) n xs ys c, Spread-without size n xs ys s)

-- A node overlaps none of the others.
pub Clear-others :
    (size : ℕ → ℕ) (n : ℕ) (xs ys : List ℕ)
    → Spread size (xs ++ n ∷ ys)
    → Clear size n (size n) (xs ++ ys)
Clear-others size n [] ys s = s.0
Clear-others size n (x ∷ xs) ys (c, s) = (
  Off-swap x (size x) n (size n) (Clear-In size x (size x) n (xs ++ n ∷ ys) c (In-middle n xs ys)),
  Clear-others size n xs ys s,
)

module _ {g : Geometry} {h : Heap} {size : ℕ → ℕ} {lists : ℕ → List ℕ} (x : IsListed g h size lists)
    (b n : ℕ) (xs ys : List ℕ) (some_class : b < g.bins) (there : lists b ≡ xs ++ n ∷ ys) where
  open x use {linked, sized, spread, apart, metadata}

  abbrev after : Heap
  after = remove n h

  abbrev shorter : ℕ → List ℕ
  shorter = update lists b (xs ++ ys)

  settled : Settled h after
  settled = remove-Settled h n

  keeps : (q : ℕ) → Off q 8 (bin_by_idx h b) 16 → Outside q 8 (lists b) → load after q ≡ load h q
  keeps q o os =
      remove-Kept h (bin_by_idx h b) n xs ys q o (subst (λ ns. Outside q 8 ns) there os)
        (subst (λ ns. Linked h (bin_by_idx h b) ns) there (linked b some_class))

  keeps_chunk :
      (i m q : ℕ)
      → In m (lists i)
      → m ≤ q
      → q + 8 ≤ m + size m
      → Outside q 8 (lists b)
      → load after q ≡ load h q
  keeps_chunk i m q e lo hi os =
      keeps q (inr (omega (arith, (sized i m e).behind, lo, some_class))) os

  pub Linked-rest : Linked after (bin_by_idx h b) (xs ++ ys)
  Linked-rest =
      remove-Linked h (bin_by_idx h b) n xs ys
        (subst (λ ns. Outside (bin_by_idx h b) 16 ns) there
          (lists_above x (bin_by_idx h b) 16 b (omega (arith, some_class))))
        (subst (λ ns. Distinct ns) there (lists-Distinct x b))
        (subst (λ ns. Linked h (bin_by_idx h b) ns) there (linked b some_class))

  Linked-other : (i : ℕ) → i < g.bins → i ≢ b → Linked after (bin_by_idx h i) (lists i)
  Linked-other i l ne =
      Linked-Same h after (bin_by_idx h i) (lists i)
        (place_kept (bin_by_idx h i) (omega arith) (omega arith))
        (place_kept (bin_by_idx h i + 8) (omega arith) (omega arith))
        (Same-kept h after (lists i) (λ m q e lo hi.
          let large = (sized i m e).least in
          keeps_chunk i m q e lo (omega (arith, hi, large))
            (lists_apart x i b m q ne e lo (omega (arith, hi, large)))))
        (linked i l)
    where
      place_kept :
          (q : ℕ) → bin_by_idx h i ≤ q → q + 8 ≤ bin_by_idx h i + 16 → load after q ≡ load h q
      place_kept q lo hi =
          keeps q (ground (arith, lo, hi, ne)) (lists_above x q 8 b (omega (arith, hi, l)))

  sized_old : (i m : ℕ) → In m (lists i) → IsFreeChunk g after size i m
  sized_old i m e =
      IsFreeChunk-kept g h after size i m settled.2
        (λ q lo hi. keeps_chunk i m q e (omega (arith, lo)) hi (outside q lo hi)) (sized i m e)
    where
      outside : (q : ℕ) → m + node_size ≤ q → q + 8 ≤ m + size m → Outside q 8 (lists b)
      outside q lo hi = elim (ℕ_discrete i b) [
        | yes same ↦
            behind_node size q m (lists b) (lists-Large x b) (spread b)
              (subst (λ j. In m (lists j)) same e) lo hi
        | no ne ↦ lists_apart x i b m q ne e (omega (arith, lo)) hi
      ]

  update_at : (i : ℕ) → i ≡ b → shorter i ≡ xs ++ ys
  update_at i same = rw (eq→== i b same) refl

  -- What stands in a list still stood there before.
  pub In-shorter : (i m : ℕ) → In m (shorter i) → In m (lists i)
  In-shorter i m e = elim (ℕ_discrete i b) [
    | yes same ↦
        subst (λ ns. In m ns) (sym (ap lists same ∙ there))
          (In-without m n xs ys (subst (λ ns. In m ns) (update_at i same) e))
    | no ne ↦ subst (λ ns. In m ns) (update_ne lists b i (xs ++ ys) ne) e
  ]

  pub Clear-shorter : (q l i : ℕ) → Clear size q l (lists i) → Clear size q l (shorter i)
  Clear-shorter q l i c = elim (ℕ_discrete i b) [
    | yes same ↦
        rw (update_at i same) (
          Clear-without size q l n xs ys
            (subst (λ ns. Clear size q l ns) (ap lists same ∙ there) c))
    | no ne ↦ rw (update_ne lists b i (xs ++ ys) ne) c
  ]

  -- The chunk has left its list, and the other lists are as before.
  pub remove-IsListed : IsListed g after size shorter
  remove-IsListed = record {
    linked = λ i l.
        subst (λ p. Linked after (p + 16 * i) (shorter i)) (sym settled.2)
          (elim (ℕ_discrete i b) [
            | yes same ↦
                rw (update_at i same)
                  (subst (λ j. Linked after (bin_by_idx h j) (xs ++ ys)) (sym same) Linked-rest)
            | no ne ↦ rw (update_ne lists b i (xs ++ ys) ne) (Linked-other i l ne)
          ]);
    sized = λ i m e. sized_old i m (In-shorter i m e);
    spread = λ i. elim (ℕ_discrete i b) [
      | yes same ↦
          rw (update_at i same)
            (Spread-without size n xs ys (subst (λ ns. Spread size ns) there (spread b)))
      | no ne ↦ rw (update_ne lists b i (xs ++ ys) ne) (spread i)
    ];
    apart = λ i j m ne e. Clear-shorter m (size m) j (apart i j m ne (In-shorter i m e));
    metadata = omega (arith, settled.1, settled.2, metadata);
  }

  -- The chunk overlaps no chunk that is free still.
  pub remove-Clear : (i : ℕ) → Clear size n (size n) (shorter i)
  remove-Clear i = elim (ℕ_discrete i b) [
    | yes same ↦
        rw (update_at i same)
          (Clear-others size n xs ys (subst (λ ns. Spread size ns) there (spread b)))
    | no ne ↦
        rw (update_ne lists b i (xs ++ ys) ne)
          (apart b i n (λ e. ne (sym e)) (subst (λ ns. In n ns) (sym there) (In-middle n xs ys)))
  ]

  pub remove-avails : (i : ℕ) → i < availability_words g → avail_word after i ≡ avail_word h i
  remove-avails i l =
      ap (λ a. load after (a + 8 * i)) settled.1
      ∙ keeps (avail_place h i) (inl (omega (arith, l, metadata)))
          (lists_above x (avail_place h i) 8 b (omega (arith, l, metadata)))

  pub remove-fields : Settled h after
  remove-fields = settled
