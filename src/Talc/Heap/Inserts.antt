-- ===== src/Talc/Heap/Inserts.antt =====
-- src/talc.rs: `insert_free` puts a chunk at the head of the list of its class and leaves the others.
use evering.Base.{
  ℕ, ◌+◌, ◌-◌, ◌*◌, ◌/◌, ◌≤◌, ◌<◌, ◌≡◌, ◌≢◌, inl, inr, refl, sym, ap, ◌∙◌, Option, none, some, List,
  [], ◌∷◌, arith, update, ℕ_discrete, eq→==, subst, update_ne,
}
use evering.Talc.Geometry.{Geometry, availability_words, bin}
use evering.Talc.Heap.Memory.{Heap, load, store, load_link, store_link}
use evering.Talc.Heap.Chunks.{
  node_size, insert, insert_by, size_low, init_head, init_free, min_chunk_size,
}
use evering.Talc.Heap.Availability.{avail_place, avail_word, toggle_avail}
use evering.Talc.Heap.Blocks.{bin_by_idx}
use evering.Talc.Heap.Linked.{
  Off, Outside, Distinct, Linked, Outside-part, Linked-Same, Linked-store, insert_by-Linked,
}
use evering.Talc.Heap.Free.{
  In, Clear, IsFreeChunk, Clear-Outside, Clear-In, Off-swap, IsListed, lists-Large, lists_above,
  lists-Distinct, lists_apart, behind_node, IsFreeChunk-kept, Same-kept, Settled,
}

insert-Settled : (h : Heap) (node p : ℕ) (link : Option ℕ) → Settled h (insert node link p h)
unfolding insert store_link
insert-Settled h node p none = (refl, refl, refl, refl)
insert-Settled h node p (some x) = (refl, refl, refl, refl)

pub insert_by-Settled : (h : Heap) (node p : ℕ) → Settled h (insert_by node p h)
unfolding insert_by
insert_by-Settled h node p = insert-Settled h node p (load_link h p)

insert-some-keeps :
    (h : Heap) (node p x q : ℕ)
    → Off q 8 p 16
    → Off q 8 node node_size
    → Off q 8 x node_size
    → load (insert node (some x) p h) q ≡ load h q
unfolding insert store_link
insert-some-keeps h node p x q o on ox = ground (arith, o, on, ox)

insert-none-keeps :
    (h : Heap) (node p q : ℕ)
    → Off q 8 p 16
    → Off q 8 node node_size
    → load (insert node none p h) q ≡ load h q
unfolding insert store_link
insert-none-keeps h node p q o on = ground (arith, o, on)

-- `insert_by` writes the node, its place and the first node of the list only.
insert_by-keeps :
    (h : Heap) (node p : ℕ) (ns : List ℕ) (q : ℕ)
    → Off q 8 p 16
    → Off q 8 node node_size
    → Outside q 8 ns
    → Linked h p ns
    → load (insert_by node p h) q ≡ load h q
unfolding insert_by
insert_by-keeps h node p [] q o on os l =
    ap (λ x. load (insert node x p h) q) l ∙ insert-none-keeps h node p q o on
insert_by-keeps h node p (x ∷ xs) q o on os l =
    ap (λ y. load (insert node y p h) q) l.0 ∙ insert-some-keeps h node p x q o on os.0

toggle-Fields :
    (h : Heap) (idx : ℕ)
    → ((toggle_avail idx h).avails ≡ h.avails)
      × ((toggle_avail idx h).bins ≡ h.bins)
      × ((toggle_avail idx h).origin ≡ h.origin)
unfolding toggle_avail
toggle-Fields h idx = (refl, refl, refl)

pub toggle-keeps :
    (h : Heap) (idx q : ℕ)
    → Off q 8 (avail_place h (idx / 64)) 8
    → load (toggle_avail idx h) q ≡ load h q
unfolding toggle_avail
toggle-keeps h idx q o = ground (arith, o)

init_free-keeps :
    (h : Heap) (head p sz : ℕ) (ns : List ℕ) (q : ℕ)
    → min_chunk_size ≤ sz
    → Off q 8 p 16
    → Off q 8 head sz
    → Outside q 8 ns
    → Linked h p ns
    → load (init_free head p sz h) q ≡ load h q
unfolding init_free init_head
init_free-keeps h head p sz ns q least o on os l =
    ground (arith, o, on, least, insert_by-keeps h head p ns q o (ground (arith, on, least)) os l)

-- The list with the chunk before it, and the sizes that stand in the chunk.
init_free-Linked :
    (h : Heap) (head p sz : ℕ) (ns : List ℕ)
    → min_chunk_size ≤ sz
    → p + 16 ≤ head
    → Outside p 16 ns
    → Outside head sz ns
    → Distinct ns
    → Linked h p ns
    → Linked (init_free head p sz h) p (head ∷ ns)
      × (size_low (init_free head p sz h) head ≡ sz)
      × (load (init_free head p sz h) (head + (sz - 8)) ≡ sz)
unfolding init_free init_head
init_free-Linked h head p sz ns least lt op oh d l =
    let h1 = insert_by head p h in
    let l1 =
      insert_by-Linked h head p ns (inl lt) op
        (Outside-part head sz head node_size ns (omega arith) (omega (arith, least)) oh) d l in
    let l2 =
      Linked-store h1 (head + node_size) sz p (head ∷ ns) (inr (omega (arith, lt)))
        (
          inr (omega arith),
          Outside-part head sz (head + 24) 8 ns (omega arith) (omega (arith, least)) oh,
        )
        l1 in
    (
      Linked-store (store (head + node_size) sz h1) (head + sz - 8) sz p (head ∷ ns)
          (inr (omega (arith, lt, least)))
          (
            inr (omega (arith, least)),
            Outside-part head sz (head + sz - 8) 8 ns (omega (arith, least)) (omega (arith, least))
                oh,
          )
          l2,
      ground (arith, least),
      ground (arith, least),
    )

module _ {g : Geometry} {h : Heap} {size : ℕ → ℕ} {lists : ℕ → List ℕ} (x : IsListed g h size lists)
    (b head : ℕ) (some_class : b < g.bins) (behind : bin_by_idx h g.bins ≤ head)
    (least : min_chunk_size ≤ size head) (class : bin g (size head) ≡ b)
    (clear : (i : ℕ) → Clear size head (size head) (lists i)) where
  open x use {linked, sized, spread, apart, metadata}

  abbrev after : Heap
  after = init_free head (bin_by_idx h b) (size head) h

  abbrev longer : ℕ → List ℕ
  longer = update lists b (head ∷ lists b)

  keeps :
      (q : ℕ)
      → Off q 8 (bin_by_idx h b) 16
      → Off q 8 head (size head)
      → Outside q 8 (lists b)
      → load after q ≡ load h q
  keeps q o oh os =
      init_free-keeps h head (bin_by_idx h b) (size head) (lists b) q least o oh os
        (linked b some_class)

  -- The words of a chunk that was free before, when they lie outside of the nodes of the class.
  keeps_chunk :
      (i n q : ℕ)
      → In n (lists i)
      → n ≤ q
      → q + 8 ≤ n + size n
      → Outside q 8 (lists b)
      → load after q ≡ load h q
  keeps_chunk i n q e lo hi os =
      keeps q (inr (omega (arith, (sized i n e).behind, lo, some_class)))
        (ground (arith, Clear-In size head (size head) n (lists i) (clear i) e, lo, hi)) os

  Linked-head :
      Linked after (bin_by_idx h b) (head ∷ lists b)
      × (size_low after head ≡ size head)
      × (load after (head + (size head - 8)) ≡ size head)
  Linked-head =
      init_free-Linked h head (bin_by_idx h b) (size head) (lists b) least
        (omega (arith, behind, some_class))
        (lists_above x (bin_by_idx h b) 16 b (omega (arith, some_class)))
        (Clear-Outside size head (size head) (lists b) (lists-Large x b) (clear b))
        (lists-Distinct x b) (linked b some_class)

  Linked-other : (i : ℕ) → i < g.bins → i ≢ b → Linked after (bin_by_idx h i) (lists i)
  Linked-other i l ne =
      Linked-Same h after (bin_by_idx h i) (lists i)
        (place_kept (bin_by_idx h i) (omega arith) (omega arith))
        (place_kept (bin_by_idx h i + 8) (omega arith) (omega arith))
        (Same-kept h after (lists i) (λ n q e lo hi.
          let large = (sized i n e).least in
          keeps_chunk i n q e lo (omega (arith, hi, large))
            (lists_apart x i b n q ne e lo (omega (arith, hi, large)))))
        (linked i l)
    where
      place_kept :
          (q : ℕ) → bin_by_idx h i ≤ q → q + 8 ≤ bin_by_idx h i + 16 → load after q ≡ load h q
      place_kept q lo hi =
          keeps q (ground (arith, lo, hi, ne)) (inl (omega (arith, hi, l, behind)))
            (lists_above x q 8 b (omega (arith, hi, l)))

  settled : Settled h after
  unfolding init_free init_head
  settled = insert_by-Settled h head (bin_by_idx h b)

  sized_head : IsFreeChunk g after size b head
  sized_head = record {
    least = least;
    low = Linked-head.1;
    high = Linked-head.2;
    class = class;
    behind = omega (arith, settled.2, behind);
  }

  sized_old : (i n : ℕ) → In n (lists i) → IsFreeChunk g after size i n
  sized_old i n e =
      IsFreeChunk-kept g h after size i n settled.2
        (λ q lo hi. keeps_chunk i n q e (omega (arith, lo)) hi (outside q lo hi)) (sized i n e)
    where
      outside : (q : ℕ) → n + node_size ≤ q → q + 8 ≤ n + size n → Outside q 8 (lists b)
      outside q lo hi = elim (ℕ_discrete i b) [
        | yes same ↦
            behind_node size q n (lists b) (lists-Large x b) (spread b)
              (subst (λ j. In n (lists j)) same e) lo hi
        | no ne ↦ lists_apart x i b n q ne e (omega (arith, lo)) hi
      ]

  -- The chunk heads the list of its class, and the other lists are as before.
  pub insert-IsListed : IsListed g after size longer
  insert-IsListed = record {
    linked = λ i l.
        subst (λ p. Linked after (p + 16 * i) (longer i)) (sym settled.2)
          (elim (ℕ_discrete i b) [
            | yes same ↦ rw (update_at i same) (
                subst (λ j. Linked after (bin_by_idx h j) (head ∷ lists b)) (sym same)
                  Linked-head.0)
            | no ne ↦ rw (update_ne lists b i (head ∷ lists b) ne) (Linked-other i l ne)
          ]);
    sized = λ i n e. elim (ℕ_discrete i b) [
      | yes same ↦
          subst (λ j. IsFreeChunk g after size j n) (sym same)
            (sized_longer n (subst (λ ns. In n ns) (update_at i same) e))
      | no ne ↦ sized_old i n (subst (λ ns. In n ns) (update_ne lists b i (head ∷ lists b) ne) e)
    ];
    spread = λ i. elim (ℕ_discrete i b) [
      | yes same ↦ rw (update_at i same) (clear b, spread b)
      | no ne ↦ rw (update_ne lists b i (head ∷ lists b) ne) (spread i)
    ];
    apart = apart_longer;
    metadata = omega (arith, settled.1, settled.2, metadata);
  }
    where
      update_at : (i : ℕ) → i ≡ b → longer i ≡ head ∷ lists b
      update_at i same = rw (eq→== i b same) refl

      sized_longer : (n : ℕ) → In n (head ∷ lists b) → IsFreeChunk g after size b n
      sized_longer n (inl e) = subst (λ m. IsFreeChunk g after size b m) (sym e) sized_head
      sized_longer n (inr e) = sized_old b n e

      apart_head : (n j : ℕ) → b ≢ j → In n (head ∷ lists b) → Clear size n (size n) (lists j)
      apart_head n j ne (inl e) = subst (λ m. Clear size m (size m) (lists j)) (sym e) (clear j)
      apart_head n j ne (inr e) = apart b j n ne e

      apart_longer : (i j n : ℕ) → i ≢ j → In n (longer i) → Clear size n (size n) (longer j)
      apart_longer i j n ne e = elim (ℕ_discrete i b) [
        | yes same ↦
            let ne' : j ≢ b = λ e'. ne (same ∙ sym e') in
            rw (update_ne lists b j (head ∷ lists b) ne')
              (apart_head n j (λ e'. ne' (sym e')) (subst (λ ns. In n ns) (update_at i same) e))
        | no other ↦
            let e' = subst (λ ns. In n ns) (update_ne lists b i (head ∷ lists b) other) e in
            elim (ℕ_discrete j b) [
              | yes same ↦ rw (update_at j same) (
                Off-swap head (size head) n (size n)
                    (Clear-In size head (size head) n (lists i) (clear i) e'),
                subst (λ k. Clear size n (size n) (lists k)) same (apart i j n ne e'),
              )
              | no ne' ↦ rw (update_ne lists b j (head ∷ lists b) ne') (apart i j n ne e')
            ]
      ]

  pub insert-avails : (i : ℕ) → i < availability_words g → avail_word after i ≡ avail_word h i
  insert-avails i l =
      ap (λ a. load after (a + 8 * i)) settled.1
      ∙ keeps (avail_place h i) (inl (omega (arith, l, metadata)))
          (inl (omega (arith, l, metadata, behind)))
          (lists_above x (avail_place h i) 8 b (omega (arith, l, metadata)))

  pub insert-summary : after.summary ≡ h.summary
  insert-summary = settled.0
