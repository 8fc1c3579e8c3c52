-- ===== src/Talc/Heap/Free.antt =====
-- src/talc.rs: what the free lists of all classes are, together with the words that say which classes have
-- a free chunk.
use evering.Base.{
  ℕ, ◌+◌, ◌-◌, ◌*◌, ◌≤◌, ◌<◌, ◌≡◌, ◌≢◌, ◌⊎◌, inl, inr, refl, sym, ap, ◌∙◌, Bool, true, false, not,
  ◌==◌, List, [], ◌∷◌, arith, subst, bit,
}
use evering.Talc.Geometry.{Geometry, availability_words, bin}
use evering.Talc.Heap.Memory.{Heap, load}
use evering.Talc.Heap.Chunks.{node_size, size_low, min_chunk_size}
use evering.Talc.Heap.Availability.{avail_place, avail_word}
use evering.Talc.Heap.Blocks.{bin_by_idx}
use evering.Talc.Heap.Index.{flag, IsIndexed}
use evering.Talc.Heap.Linked.{Off, Outside, Distinct, Linked, Same, Linked-Same}

abbrev pub In : ℕ → List ℕ → Type 0
In n [] = ⊥
In n (m ∷ ms) = (n ≡ m) ⊎ In n ms

-- The `l` bytes at `q` lie outside of the chunks at `ns`.
abbrev pub Clear : (ℕ → ℕ) → ℕ → ℕ → List ℕ → Type 0
Clear size q l [] = Unit
Clear size q l (n ∷ ns) = Off q l n (size n) × Clear size q l ns

abbrev pub Spread : (ℕ → ℕ) → List ℕ → Type 0
Spread size [] = Unit
Spread size (n ∷ ns) = Clear size n (size n) ns × Spread size ns

abbrev pub some_head : List ℕ → Bool
some_head [] = false
some_head (n ∷ ns) = true

-- A chunk of class `i` that is free: its size stands in its head and at its end, and it lies behind the
-- metadata.
pub record IsFreeChunk (g : Geometry) (h : Heap) (size : ℕ → ℕ) (i n : ℕ) : Type 0 where
  pub least : min_chunk_size ≤ size n
  pub low : size_low h n ≡ size n
  pub high : load h (n + (size n - 8)) ≡ size n
  pub class : bin g (size n) ≡ i
  pub behind : bin_by_idx h g.bins ≤ n

-- The list of each class holds free chunks of the class, and no two chunks overlap.
pub record IsListed (g : Geometry) (h : Heap) (size : ℕ → ℕ) (lists : ℕ → List ℕ) : Type 0 where
  pub linked : (i : ℕ) → i < g.bins → Linked h (bin_by_idx h i) (lists i)
  pub sized : (i n : ℕ) → In n (lists i) → IsFreeChunk g h size i n
  pub spread : (i : ℕ) → Spread size (lists i)
  pub apart : (i j n : ℕ) → i ≢ j → In n (lists i) → Clear size n (size n) (lists j)
  pub metadata : avail_place h (availability_words g) ≤ h.bins

-- So it is, and the availability words say which lists are not empty.
pub record IsFree (g : Geometry) (h : Heap) (size : ℕ → ℕ) (lists : ℕ → List ℕ) : Type 0 where
  pub indexed : IsIndexed g h (λ i. some_head (lists i))
  pub listed : IsListed g h size lists

-- All chunks of a list are as large as a node.
abbrev pub Large : (ℕ → ℕ) → List ℕ → Type 0
Large size ns = (n : ℕ) → In n ns → min_chunk_size ≤ size n

pub Clear-part :
    (size : ℕ → ℕ) (q l q' l' : ℕ) (ns : List ℕ)
    → q ≤ q'
    → q' + l' ≤ q + l
    → Clear size q l ns
    → Clear size q' l' ns
Clear-part size q l q' l' [] a b c = tt
Clear-part size q l q' l' (n ∷ ns) a b (c, cs) =
    (ground (arith, c), Clear-part size q l q' l' ns a b cs)

pub Clear-Outside :
    (size : ℕ → ℕ) (q l : ℕ) (ns : List ℕ) → Large size ns → Clear size q l ns → Outside q l ns
Clear-Outside size q l [] large c = tt
Clear-Outside size q l (n ∷ ns) large (c, cs) =
    (ground (arith, c, large n (inl refl)), Clear-Outside size q l ns (λ m e. large m (inr e)) cs)

pub Spread-Distinct : (size : ℕ → ℕ) (ns : List ℕ) → Large size ns → Spread size ns → Distinct ns
Spread-Distinct size [] large s = tt
Spread-Distinct size (n ∷ ns) large (c, s) = (
  Clear-Outside size n node_size ns (λ m e. large m (inr e))
      (Clear-part size n (size n) n node_size ns (omega arith) (omega (arith, large n (inl refl)))
        c),
  Spread-Distinct size ns (λ m e. large m (inr e)) s,
)

pub Clear-In :
    (size : ℕ → ℕ) (q l n : ℕ) (ns : List ℕ) → Clear size q l ns → In n ns → Off q l n (size n)
Clear-In size q l n [] c e = absurd e
Clear-In size q l n (m ∷ ms) (c, cs) (inl e) = subst (λ x. Off q l x (size x)) (sym e) c
Clear-In size q l n (m ∷ ms) (c, cs) (inr e) = Clear-In size q l n ms cs e

pub Off-swap : (a la b lb : ℕ) → Off a la b lb → Off b lb a la
Off-swap a la b lb o = ground (arith, o)

-- The bytes of a chunk behind its node, seen from the list that it stands in.
pub behind_node :
    (size : ℕ → ℕ) (q n : ℕ) (ns : List ℕ)
    → Large size ns
    → Spread size ns
    → In n ns
    → n + node_size ≤ q
    → q + 8 ≤ n + size n
    → Outside q 8 ns
behind_node size q n [] large s e a b = absurd e
behind_node size q n (m ∷ ms) large (c, s) (inl e) a b = (
  inr (omega (arith, a, e)),
  Clear-Outside size q 8 ms (λ k i. large k (inr i))
      (Clear-part size m (size m) q 8 ms (omega (arith, a, e)) (subst (λ x. q + 8 ≤ x + size x) e b)
        c),
)
behind_node size q n (m ∷ ms) large (c, s) (inr e) a b = (
  ground (arith, Clear-In size m (size m) n ms c e, large m (inl refl)),
  behind_node size q n ms (λ k i. large k (inr i)) s e a b,
)

-- Memory that agrees with the first inside of a chunk has the chunk too.
pub IsFreeChunk-kept :
    (g : Geometry) (h h' : Heap) (size : ℕ → ℕ) (i n : ℕ)
    → h'.bins ≡ h.bins
    → ((q : ℕ) → n + node_size ≤ q → q + 8 ≤ n + size n → load h' q ≡ load h q)
    → IsFreeChunk g h size i n
    → IsFreeChunk g h' size i n
IsFreeChunk-kept g h h' size i n e kept c = record {
  least = c.least;
  low = kept (n + 24) (omega arith) (omega (arith, c.least)) ∙ c.low;
  high = kept (n + (size n - 8)) (omega (arith, c.least)) (omega (arith, c.least)) ∙ c.high;
  class = c.class;
  behind = omega (arith, e, c.behind);
}

pub Same-kept :
    (h h' : Heap) (ns : List ℕ)
    → ((n q : ℕ) → In n ns → n ≤ q → q + 8 ≤ n + node_size → load h' q ≡ load h q)
    → Same h h' ns
Same-kept h h' [] kept = tt
Same-kept h h' (n ∷ ns) kept = (
  kept n n (inl refl) (omega arith) (omega arith),
  kept n (n + 8) (inl refl) (omega arith) (omega arith),
  kept n (n + 16) (inl refl) (omega arith) (omega arith),
  Same-kept h h' ns (λ m q e. kept m q (inr e)),
)

pub IsIndexed-kept :
    (g : Geometry) (h h' : Heap) (has has' : ℕ → Bool)
    → ((i : ℕ) → i < availability_words g → avail_word h' i ≡ avail_word h i)
    → h'.summary ≡ h.summary
    → ((k : ℕ) → has' k ≡ has k)
    → IsIndexed g h has
    → IsIndexed g h' has'
IsIndexed-kept g h h' has has' words e same x = record {
  few = x.few;
  small = λ i l. ground (arith, words i l, x.small i l);
  bits = λ i b l b_lt.
      ap (λ w. bit w b) (words i l) ∙ x.bits i b l b_lt ∙ ap flag (sym (same (64 * i + b)));
  summary_small = ground (arith, e, x.summary_small);
  summary_bits = λ i l.
      ap (λ s. bit s i) e ∙ x.summary_bits i l ∙ ap (λ w. flag (not (w == 0))) (sym (words i l));
  summary_above = λ i l. ap (λ s. bit s i) e ∙ x.summary_above i l;
  bounded = λ k l. same k ∙ x.bounded k l;
}

-- The parts of the heap that are no words.
abbrev pub Settled : Heap → Heap → Type 0
Settled h h' =
    (h'.summary ≡ h.summary) × (h'.avails ≡ h.avails) × (h'.bins ≡ h.bins) × (h'.origin ≡ h.origin)

pub Outside-below : (q l : ℕ) (ns : List ℕ) → ((n : ℕ) → In n ns → q + l ≤ n) → Outside q l ns
Outside-below q l [] below = tt
Outside-below q l (n ∷ ns) below =
    (inl (below n (inl refl)), Outside-below q l ns (λ m e. below m (inr e)))

module _ {g : Geometry} {h : Heap} {size : ℕ → ℕ} {lists : ℕ → List ℕ}
    (x : IsListed g h size lists) where
  open x use {linked, sized, spread, apart, metadata}

  pub lists-Large : (i : ℕ) → Large size (lists i)
  lists-Large i n e = (sized i n e).least

  -- What lies before the chunks lies outside of all.
  pub lists_above : (q l i : ℕ) → q + l ≤ bin_by_idx h g.bins → Outside q l (lists i)
  lists_above q l i le =
      Outside-below q l (lists i) (λ n e. omega (arith, le, (sized i n e).behind))

  pub lists-Distinct : (i : ℕ) → Distinct (lists i)
  lists-Distinct i = Spread-Distinct size (lists i) (lists-Large i) (spread i)

  -- What a chunk of another list covers lies outside of a list.
  pub lists_apart :
      (i j n q : ℕ) → i ≢ j → In n (lists i) → n ≤ q → q + 8 ≤ n + size n → Outside q 8 (lists j)
  lists_apart i j n q ne e a b =
      Clear-Outside size q 8 (lists j) (lists-Large j)
        (Clear-part size n (size n) q 8 (lists j) a b (apart i j n ne e))

  -- Lists and metadata in memory that agrees on all from the places of the classes on.
  pub IsListed-kept :
      (h' : Heap)
      → h'.avails ≡ h.avails
      → h'.bins ≡ h.bins
      → ((q : ℕ) → h.bins ≤ q → load h' q ≡ load h q)
      → IsListed g h' size lists
  IsListed-kept h' ea eb kept = record {
    linked = λ i l.
        subst (λ p. Linked h' (p + 16 * i) (lists i)) (sym eb)
          (Linked-Same h h' (bin_by_idx h i) (lists i) (kept (bin_by_idx h i) (omega arith))
            (kept (bin_by_idx h i + 8) (omega arith))
            (Same-kept h h' (lists i)
              (λ n q e a b. kept q (omega (arith, (sized i n e).behind, a))))
            (linked i l));
    sized = λ i n e.
        IsFreeChunk-kept g h h' size i n eb
          (λ q a b. kept q (omega (arith, (sized i n e).behind, a))) (sized i n e);
    spread = spread;
    apart = apart;
    metadata = omega (arith, ea, eb, metadata);
  }
