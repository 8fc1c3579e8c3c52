-- ===== src/Talc/Heap/Laid.antt =====
-- src/talc.rs: how free chunks lie among the others. No two are neighbours, since between any two stands a tag.
use evering.Base.{
  ℕ, ◌+◌, ◌-◌, ◌%◌, ◌≤◌, ◌<◌, ◌≡◌, ◌≢◌, ◌⊎◌, inl, inr, refl, sym, ap, ◌∙◌, Bool, true, false,
  if◌then◌else◌, List, [], ◌∷◌, arith, update, ℕ_discrete, eq→==, subst, update_ne, ne→==,
  update_self,
}
use evering.Talc.Geometry.{Geometry, bin}
use evering.Talc.Heap.Memory.{Heap, load, load_link}
use evering.Talc.Heap.Chunks.{init_head, init_free, min_chunk_size}
use evering.Talc.Heap.Availability.{toggle_avail}
use evering.Talc.Heap.Blocks.{bin_by_idx, is_none, insert_free, insert_chunk}
use evering.Talc.Heap.Free.{In, Clear, Spread, IsFreeChunk, IsFree, Clear-In}
use evering.Talc.Heap.Linked.{Off}
use evering.Talc.Heap.Inserts.{insert_by-Settled}
use evering.Talc.Heap.Inserted.{insert_free-IsFree}

-- Free chunks are of whole words, and the tag before each is in no other.
pub record IsLaid (g : Geometry) (h : Heap) (size : ℕ → ℕ) (lists : ℕ → List ℕ) : Type 0 where
  pub base_words : (i n : ℕ) → In n (lists i) → n % 8 ≡ 0
  pub size_words : (i n : ℕ) → In n (lists i) → size n % 8 ≡ 0
  pub front : (i n : ℕ) → In n (lists i) → bin_by_idx h g.bins + 8 ≤ n
  pub fence : (i j n : ℕ) → In n (lists i) → Clear size (n - 8) 8 (lists j)

maybe_toggled-bins :
    (c : Bool) (idx : ℕ) (h : Heap) → (if c then toggle_avail idx h else h).bins ≡ h.bins
unfolding toggle_avail
maybe_toggled-bins true idx h = refl
maybe_toggled-bins false idx h = refl

pub insert_free-bins :
    (g : Geometry) (head size : ℕ) (h : Heap) → (insert_free g head size h).bins ≡ h.bins
unfolding insert_free init_free init_head
insert_free-bins g head size h =
    let place = bin_by_idx h (bin g size) in
    let c = is_none (load_link h place) in
    (insert_by-Settled (if c then toggle_avail (bin g size) h else h) head place).2
    ∙ maybe_toggled-bins c (bin g size) h

Clear-resize :
    (size size' : ℕ → ℕ) (q l : ℕ) (ns : List ℕ)
    → ((m : ℕ) → In m ns → size' m ≡ size m)
    → Clear size q l ns
    → Clear size' q l ns
Clear-resize size size' q l [] same c = tt
Clear-resize size size' q l (n ∷ ns) same (c, cs) = (
  subst (λ s. Off q l n s) (sym (same n (inl refl))) c,
  Clear-resize size size' q l ns (λ m e. same m (inr e)) cs,
)

Spread-resize :
    (size size' : ℕ → ℕ) (ns : List ℕ)
    → ((m : ℕ) → In m ns → size' m ≡ size m)
    → Spread size ns
    → Spread size' ns
Spread-resize size size' [] same s = tt
Spread-resize size size' (n ∷ ns) same (c, s) = (
  subst (λ k. Clear size' n k ns) (sym (same n (inl refl)))
      (Clear-resize size size' n (size n) ns (λ m e. same m (inr e)) c),
  Spread-resize size size' ns (λ m e. same m (inr e)) s,
)

IsFreeChunk-resize :
    (g : Geometry) (h : Heap) (size size' : ℕ → ℕ) (i n : ℕ)
    → size' n ≡ size n
    → IsFreeChunk g h size i n
    → IsFreeChunk g h size' i n
IsFreeChunk-resize g h size size' i n e c = record {
  least = omega (arith, e, c.least);
  low = c.low ∙ sym e;
  high = subst (λ s. load h (n + (s - 8)) ≡ s) (sym e) c.high;
  class = ap (λ s. bin g s) e ∙ c.class;
  behind = c.behind;
}

-- Sizes of chunks that are not free do not matter.
pub IsFree-resize :
    {g : Geometry} {h : Heap} {size : ℕ → ℕ} {lists : ℕ → List ℕ} (size' : ℕ → ℕ)
    → ((i m : ℕ) → In m (lists i) → size' m ≡ size m)
    → IsFree g h size lists
    → IsFree g h size' lists
IsFree-resize {g} {h} {size} {lists} size' same x = record {
  indexed = x.indexed;
  listed = record {
    linked = x.listed.linked;
    sized = λ i n e. IsFreeChunk-resize g h size size' i n (same i n e) (x.listed.sized i n e);
    spread = λ i. Spread-resize size size' (lists i) (same i) (x.listed.spread i);
    apart = λ i j n ne e.
        subst (λ s. Clear size' n s (lists j)) (sym (same i n e))
          (Clear-resize size size' n (size n) (lists j) (same j) (x.listed.apart i j n ne e));
    metadata = x.listed.metadata;
  };
}

IsLaid-resize :
    {g : Geometry} {h : Heap} {size : ℕ → ℕ} {lists : ℕ → List ℕ} (size' : ℕ → ℕ)
    → ((i m : ℕ) → In m (lists i) → size' m ≡ size m)
    → IsLaid g h size lists
    → IsLaid g h size' lists
IsLaid-resize {size = size} {lists = lists} size' same x = record {
  base_words = x.base_words;
  size_words = λ i n e. ap (λ s. s % 8) (same i n e) ∙ x.size_words i n e;
  front = x.front;
  fence = λ i j n e. Clear-resize size size' (n - 8) 8 (lists j) (same j) (x.fence i j n e);
}

ne_of_clear :
    (size : ℕ → ℕ) (q l m : ℕ) (ns : List ℕ)
    → 0 < l
    → 0 < size m
    → Clear size q l ns
    → In m ns
    → m ≢ q
ne_of_clear size q l m ns l_pos pos c e same =
    absurd (ground (arith, l_pos, pos, same, Clear-In size q l m ns c e))

-- The list with a new chunk, member by member.
pub In-longer :
    (lists : ℕ → List ℕ) (b n i m : ℕ)
    → In m (update lists b (n ∷ lists b) i)
    → ((m ≡ n) × (i ≡ b)) ⊎ In m (lists i)
In-longer lists b n i m e = elim (ℕ_discrete i b) [
  | yes same ↦
      elim (subst (λ ns. In m ns) (ap (λ c. if c then n ∷ lists b else lists i) (eq→== i b same))
        e) [ inl e' ↦ inl (e', same) | inr e' ↦ inr (subst (λ j. In m (lists j)) (sym same) e') ]
  | no ne ↦ inr (subst (λ ns. In m ns) (update_ne lists b i (n ∷ lists b) ne) e)
]

pub Clear-longer :
    (size : ℕ → ℕ) (lists : ℕ → List ℕ) (b n q l i : ℕ)
    → Off q l n (size n)
    → ((j : ℕ) → Clear size q l (lists j))
    → Clear size q l (update lists b (n ∷ lists b) i)
Clear-longer size lists b n q l i o c = elim (ℕ_discrete i b) [
  | yes same ↦ rw (eq→== i b same) (o, c b)
  | no ne ↦ rw (ne→== i b ne) (c i)
]

-- A chunk that overlaps no free one, has the tag of an allocated one before it, and ends at none.
module _ {g : Geometry} {h : Heap} {size : ℕ → ℕ} {lists : ℕ → List ℕ} (x : IsFree g h size lists)
    (laid : IsLaid g h size lists) (some_class : 0 < g.bins) (base acme : ℕ)
    (least : base + min_chunk_size ≤ acme)
    (clear : (i : ℕ) → Clear size base (acme - base) (lists i)) where
  abbrev pub resized : ℕ → ℕ
  resized = update size base (acme - base)

  abbrev pub class_of : ℕ
  class_of = bin g (acme - base)

  abbrev pub with_chunk : ℕ → List ℕ
  with_chunk = update lists class_of (base ∷ lists class_of)

  pub resized_old : (i m : ℕ) → In m (lists i) → resized m ≡ size m
  resized_old i m e = update_ne size base m (acme - base) (
      ne_of_clear size base (acme - base) m (lists i) (omega (arith, least))
        (omega (arith, (x.listed.sized i m e).least)) (clear i) e)

  pub resized_new : resized base ≡ acme - base
  resized_new = update_self size base (acme - base)

  pub Clear-resized : (q l i : ℕ) → Clear size q l (lists i) → Clear resized q l (lists i)
  Clear-resized q l i = Clear-resize size resized q l (lists i) (resized_old i)

  pub insert_chunk-IsFree :
      bin_by_idx h g.bins ≤ base
      → IsFree g (insert_chunk g (record { base = base; acme = acme }) h) resized with_chunk
  insert_chunk-IsFree behind =
      subst
        (λ s.
          IsFree g (insert_free g base s h) resized
            (update lists (bin g s) (base ∷ lists (bin g s))))
        resized_new
        (insert_free-IsFree base some_class (omega (arith, resized_new, least)) behind
          (λ i.
            subst (λ s. Clear resized base s (lists i)) (sym resized_new)
              (Clear-resized base (acme - base) i (clear i)))
          (IsFree-resize resized resized_old x))

  pub insert_chunk-IsLaid :
      bin_by_idx h g.bins + 8 ≤ base
      → base % 8 ≡ 0
      → acme % 8 ≡ 0
      → ((i : ℕ) → Clear size (base - 8) 8 (lists i))
      → ((i m : ℕ) → In m (lists i) → Off (m - 8) 8 base (acme - base))
      → IsLaid g (insert_chunk g (record { base = base; acme = acme }) h) resized with_chunk
  insert_chunk-IsLaid front base_words acme_words fenced guard = record {
    base_words = λ i n e. elim (In-longer lists class_of base i n e) [
      | inl (same, _) ↦ ap (λ m. m % 8) same ∙ base_words
      | inr e' ↦ laid.base_words i n e'
    ];
    size_words = λ i n e. elim (In-longer lists class_of base i n e) [
      | inl (same, _) ↦
          ap (λ m. resized m % 8) same
          ∙ ap (λ s. s % 8) resized_new
          ∙ omega (arith, base_words, acme_words, least)
      | inr e' ↦ ap (λ s. s % 8) (resized_old i n e') ∙ laid.size_words i n e'
    ];
    front = λ i n e.
        let same_bins = insert_free-bins g base (acme - base) h in
        elim (In-longer lists class_of base i n e) [
          | inl (same, _) ↦ omega (arith, same, front, same_bins)
          | inr e' ↦ omega (arith, same_bins, laid.front i n e')
        ];
    fence = λ i j n e. elim (In-longer lists class_of base i n e) [
      | inl (same, _) ↦
          subst (λ m. Clear resized (m - 8) 8 (with_chunk j)) (sym same)
            (Clear-longer resized lists class_of base (base - 8) 8 j (inl (omega (arith, front)))
              (λ k. Clear-resized (base - 8) 8 k (fenced k)))
      | inr e' ↦
          Clear-longer resized lists class_of base (n - 8) 8 j
            (subst (λ s. Off (n - 8) 8 base s) (sym resized_new) (guard i n e'))
            (λ k. Clear-resized (n - 8) 8 k (laid.fence i k n e'))
    ];
  }
