-- ===== src/Talc/Heap/Search.antt =====
-- src/talc.rs: `acquire_chunk` finds a chunk that fits wherever one is in a list that it looks at.
use evering.Base.{
  ℕ, zero, suc, ◌+◌, ◌≤◌, ◌<◌, ◌≡◌, inl, inr, refl, sym, ap, ◌∙◌, false, Option, none, some, List,
  [], ◌∷◌, arith, length, dec_lt, ℕ_discrete, subst, ◌++◌,
}
use evering.Talc.Geometry.{Geometry}
use evering.Talc.Heap.Memory.{Heap, load_link, word_size, align_place}
use evering.Talc.Heap.Chunks.{head_to_acme}
use evering.Talc.Heap.Availability.{next_avail_bin_idx}
use evering.Talc.Heap.Blocks.{bin_by_idx, heads, fit, first_fit, Acquired, acquired, acquire_from}
use evering.Talc.Heap.Index.{IsNext}
use evering.Talc.Heap.Next.{next_lem}
use evering.Talc.Heap.Free.{In, some_head, IsFree}
use evering.Talc.Heap.Linked.{Linked}

-- With fuel for each node the iterator yields the list.
heads-Linked :
    (fuel : ℕ) (h : Heap) (p : ℕ) (ns : List ℕ)
    → length ns ≤ fuel
    → Linked h p ns
    → heads fuel h (load_link h p) ≡ ns
unfolding heads
heads-Linked zero h p [] l k = refl
heads-Linked zero h p (n ∷ ns) l k = absurd (omega (arith, l))
heads-Linked (suc fuel) h p [] l k = rw k refl
heads-Linked (suc fuel) h p (n ∷ ns) l k =
    rw (k.0) (ap (λ r. n ∷ r) (heads-Linked fuel h n ns (omega (arith, l)) k.2))

-- What the first chunk of a list that fits is.
abbrev pub IsFirst : Heap → ℕ → ℕ → List ℕ → Option (ℕ × ℕ) → Type 0
IsFirst h size align ns none = (n : ℕ) → In n ns → fit h size align n ≡ none
IsFirst h size align ns (some (n, place)) =
    (xs : List ℕ) × (ys : List ℕ) × (ns ≡ xs ++ n ∷ ys)
    × (fit h size align n ≡ some place)
    × ((m : ℕ) → In m xs → fit h size align m ≡ none)

IsFirst-skips :
    (h : Heap) (size align m : ℕ) (ms : List ℕ) (later : Option (ℕ × ℕ))
    → fit h size align m ≡ none
    → IsFirst h size align ms later
    → IsFirst h size align (m ∷ ms) later
IsFirst-skips h size align m ms none e f =
    λ n i. elim i [ inl e' ↦ ap (fit h size align) e' ∙ e | inr i' ↦ f n i' ]
IsFirst-skips h size align m ms (some (n, place)) e f = (
  m ∷ f.0,
  f.1,
  ap (λ r. m ∷ r) f.2,
  f.3,
  λ k i. elim i [ inl e' ↦ ap (fit h size align) e' ∙ e | inr i' ↦ f.4 k i' ],
)

IsFirst-step :
    (h : Heap) (size align m : ℕ) (ms : List ℕ) (later : Option (ℕ × ℕ)) (o : Option ℕ)
    → fit h size align m ≡ o
    → IsFirst h size align ms later
    → IsFirst h size align (m ∷ ms) (elim o [ some place ↦ some (m, place) | none ↦ later ])
IsFirst-step h size align m ms later none e f = IsFirst-skips h size align m ms later e f
IsFirst-step h size align m ms later (some place) e f = ([], ms, refl, e, λ k i. absurd i)

first_fit_lem :
    (h : Heap) (size align : ℕ) (ns : List ℕ) → IsFirst h size align ns (first_fit h size align ns)
unfolding first_fit
first_fit_lem h size align [] = λ n i. absurd i
first_fit_lem h size align (m ∷ ms) =
    IsFirst-step h size align m ms (first_fit h size align ms) (fit h size align m) refl
      (first_fit_lem h size align ms)

-- What `acquire_chunk` looks for, from class `lo` on: the first chunk that fits, of the lowest class that
-- has one; or there is none.
abbrev pub Acquires : Heap → ℕ → ℕ → ℕ → ℕ → (ℕ → List ℕ) → Option Acquired → Type 0
Acquires h size align bins lo lists none =
    (i n : ℕ) → lo ≤ i → In n (lists i) → fit h size align n ≡ none
Acquires h size align bins lo lists (some a) =
    (xs : List ℕ) × (ys : List ℕ) × (lo ≤ a.idx)
    × (a.idx < bins)
    × (lists a.idx ≡ xs ++ a.chunk.base ∷ ys)
    × (fit h size align a.chunk.base ≡ some a.alloc_base)
    × (a.chunk.acme ≡ head_to_acme h a.chunk.base)
    × (a.alloc_acme ≡ align_place h (a.alloc_base + size) word_size)
    × ((i m : ℕ) → lo ≤ i → i < a.idx → In m (lists i) → fit h size align m ≡ none)

no_member : (ns : List ℕ) (n : ℕ) → some_head ns ≡ false → In n ns → ⊥
no_member [] n e i = i
no_member (m ∷ ms) n e i = absurd (ground (arith, e))

-- Nothing below `j` that fits, and none in `j`: from the class after it.
Acquires-after :
    (h : Heap) (size align bins lo j : ℕ) (lists : ℕ → List ℕ) (later : Option Acquired)
    → lo ≤ j
    → ((i n : ℕ) → lo ≤ i → i < j + 1 → In n (lists i) → fit h size align n ≡ none)
    → Acquires h size align bins (j + 1) lists later
    → Acquires h size align bins lo lists later
Acquires-after h size align bins lo j lists none le empty f = λ i n lo_i e.
    elim (dec_lt i (j + 1)) [ yes l ↦ empty i n lo_i l e | no l ↦ f i n (omega (arith, l)) e ]
Acquires-after h size align bins lo j lists (some a) le empty f = (
  f.0,
  f.1,
  omega (arith, le, f.2),
  f.3,
  f.4,
  f.5,
  f.6,
  f.7,
  λ i n lo_i i_lt e. elim (dec_lt i (j + 1)) [
    | yes l ↦ empty i n lo_i l e
    | no l ↦ f.8 i n (omega (arith, l)) i_lt e
  ],
)

module _ {g : Geometry} {h : Heap} {size : ℕ → ℕ} {lists : ℕ → List ℕ} (x : IsFree g h size lists)
    (length_of align fuel : ℕ) (enough : (i : ℕ) → length (lists i) ≤ fuel) where
  nothing_below :
      (lo j : ℕ)
      → ((k : ℕ) → lo ≤ k → k < j → some_head (lists k) ≡ false)
      → ((n : ℕ) → In n (lists j) → fit h length_of align n ≡ none)
      → (i n : ℕ) → lo ≤ i
      → i < j + 1
      → In n (lists i)
      → fit h length_of align n ≡ none
  nothing_below lo j empty none_fits i n lo_i i_lt e = elim (ℕ_discrete i j) [
    | yes same ↦ none_fits n (subst (λ k. In n (lists k)) same e)
    | no ne ↦ absurd (no_member (lists i) n (empty i lo_i (omega (arith, i_lt, ne))) e)
  ]

  -- The list of class `j`, before the classes after it.
  class_step :
      (lo j : ℕ) (later : Option Acquired) (found : Option (ℕ × ℕ))
      → IsNext (λ i. some_head (lists i)) g.bins lo (some j)
      → Acquires h length_of align g.bins (j + 1) lists later
      → IsFirst h length_of align (lists j) found
      → Acquires h length_of align g.bins lo lists
          (elim found [ some f ↦ some (acquired h length_of j f) | none ↦ later ])
  class_step lo j later none next rest f =
      Acquires-after h length_of align g.bins lo j lists later next.0 (nothing_below lo j next.3 f)
        rest
  class_step lo j later (some (n, place)) next rest f = (
    f.0,
    f.1,
    next.0,
    next.1,
    f.2,
    f.3,
    refl,
    refl,
    λ i k lo_i i_lt e. absurd (no_member (lists i) k (next.3 i lo_i i_lt) e),
  )

  pub acquire_from_lem :
      (left lo : ℕ) (found : Option ℕ)
      → g.bins < left + lo
      → IsNext (λ i. some_head (lists i)) g.bins lo found
      → Acquires h length_of align g.bins lo lists
          (acquire_from g h length_of align fuel left found)
  unfolding acquire_from
  acquire_from_lem zero lo none m next =
      λ i n lo_i e. absurd (no_member (lists i) n (next i lo_i) e)
  acquire_from_lem zero lo (some j) m next = absurd (omega (arith, m, next.0, next.1))
  acquire_from_lem (suc left) lo none m next =
      λ i n lo_i e. absurd (no_member (lists i) n (next i lo_i) e)
  acquire_from_lem (suc left) lo (some j) m next =
      let later = acquire_from g h length_of align fuel left (next_avail_bin_idx g h (j + 1)) in
      subst
        (λ ns. Acquires h length_of align g.bins lo lists (elim (first_fit h length_of align ns) [
          | some f ↦ some (acquired h length_of j f)
          | none ↦ later
        ]))
        (sym (heads-Linked fuel h (bin_by_idx h j) (lists j) (enough j) (x.listed.linked j next.1)))
        (class_step lo j later (first_fit h length_of align (lists j)) next
          (acquire_from_lem left (j + 1) (next_avail_bin_idx g h (j + 1)) (omega (arith, m, next.0))
            (next_lem x.indexed (j + 1)))
          (first_fit_lem h length_of align (lists j)))
