-- ===== src/Talc/Heap/Joins.antt =====
-- src/talc.rs: `deallocate` joins the chunk of a block with its free neighbours.
use evering.Base.{
  ℕ, ◌+◌, ◌-◌, ◌/◌, ◌%◌, ◌≤◌, ◌<◌, ◌≡◌, ◌≢◌, ◌⊎◌, inl, inr, refl, sym, ap, ◌∙◌, Bool, true, false,
  ◌==◌, if◌then◌else◌, List, ◌∷◌, arith, update, ℕ_discrete, eq→==, subst, update_ne, ◌++◌, ne→==,
}
use evering.Talc.Geometry.{Geometry, bin}
use evering.Talc.Heap.Memory.{
  Heap, load, store, is_above_free_flag, is_allocated, tag_word, toggle_above_free,
}
use evering.Talc.Heap.Chunks.{node_size, size_low, tail_from_acme, tail_to_head, Chunk}
use evering.Talc.Heap.Blocks.{remove_free, remove_free_by_head, join_below}
use evering.Talc.Heap.Linked.{Off}
use evering.Talc.Heap.Free.{In, Clear, Clear-part, Clear-In, lists-Large}
use evering.Talc.Heap.Stores.{IsFree-store, IsLaid-store}
use evering.Talc.Heap.Removed.{Clear-shorter, In-shorter}
use evering.Talc.Heap.Carved.{Holds}
use evering.Talc.Heap.Allocated.{taken_Holds}
use evering.Talc.Heap.Ranges.{In-split, In-keep, Clear-each, Clear-joined, In-lt, remove_free-keeps}

-- Whether a free chunk begins at a place.
abbrev pub BeginsAt : (ℕ → List ℕ) → ℕ → Bool → Type 0
BeginsAt lists at true = (i : ℕ) × In at (lists i)
BeginsAt lists at false = (i : ℕ) → In at (lists i) → ⊥

-- What stands before a chunk: the tag of an allocated one, or a free chunk.
abbrev pub EndsAt : Heap → (ℕ → ℕ) → (ℕ → List ℕ) → ℕ → Type 0
EndsAt h size lists at =
    ((is_allocated (load h (at - 8)) ≡ true) × ((i n : ℕ) → In n (lists i) → n + size n ≢ at))
    ⊎ ((i : ℕ) × (n : ℕ) × In n (lists i) × (n + size n ≡ at))

-- A range that is held, with the tag before it in no free chunk.
abbrev pub Fenced : (ℕ → ℕ) → (ℕ → List ℕ) → ℕ → Type 0
Fenced size lists lo = (i : ℕ) → Clear size (lo - 8) 8 (lists i)

words_before :
    (base l n s : ℕ)
    → 8 ≤ base
    → base % 8 ≡ 0
    → n % 8 ≡ 0
    → s % 8 ≡ 0
    → 0 < l
    → 0 < s
    → n + s ≢ base
    → Off base l n s
    → Off (base - 8) 8 n s
words_before base l n s b w w' w'' pos pos' ne (inl o) = inl (omega (arith, o, b))
words_before base l n s b w w' w'' pos pos' ne (inr o) = inr (omega (arith, o, w, w', w'', ne))

In-rest :
    (lists : ℕ → List ℕ) (b n : ℕ) (xs ys : List ℕ) (i m : ℕ)
    → lists b ≡ xs ++ n ∷ ys
    → m ≢ n
    → In m (lists i)
    → In m (update lists b (xs ++ ys) i)
In-rest lists b n xs ys i m there ne e = elim (ℕ_discrete i b) [
  | yes same ↦
      rw (eq→== i b same) (In-keep m n xs ys ne (subst (λ ns. In m ns) (ap lists same ∙ there) e))
  | no other ↦ rw (ne→== i b other) e
]

-- The same chunks begin elsewhere when one has left.
pub BeginsAt-rest :
    (lists : ℕ → List ℕ) (b n : ℕ) (xs ys : List ℕ) (at : ℕ)
    → lists b ≡ xs ++ n ∷ ys
    → at ≢ n
    → (begins : Bool) → BeginsAt lists at begins
    → ((i m : ℕ) → In m (update lists b (xs ++ ys) i) → In m (lists i))
    → BeginsAt (update lists b (xs ++ ys)) at begins
BeginsAt-rest lists b n xs ys at there ne true (i, e) old =
    (i, In-rest lists b n xs ys i at there ne e)
BeginsAt-rest lists b n xs ys at there ne false nobody old = λ i e. nobody i (old i at e)

-- What `join_below` leaves, with the tag of the block where it was.
pub record Joined (g : Geometry) (h : Heap) (c : Chunk) (tag base : ℕ) (above : Bool) : Type 0 where
  pub size : ℕ → ℕ
  pub lists : ℕ → List ℕ
  pub held : Holds g h size lists c.base (tag + 8)
  pub fenced : Fenced size lists c.base
  pub next : BeginsAt lists (tag + 8) above
  pub tagged : load h tag ≡ tag_word base above
  pub below : c.base ≤ base

module _ {g : Geometry} {h : Heap} {size : ℕ → ℕ} {lists : ℕ → List ℕ} {tag base : ℕ} {above : Bool}
    (x : Holds g h size lists base (tag + 8)) (room : base + node_size ≤ tag)
    (next : BeginsAt lists (tag + 8) above) (tagged : load h tag ≡ tag_word base above) where
  open x use {free, laid, clear, front, base_words, acme_words}

  join_allocated :
      (c : Chunk)
      → c.base ≡ base
      → (v : ℕ) → ((i n : ℕ) → In n (lists i) → n + size n ≢ base)
      → Joined g (store (base - 8) v h) c tag base above
  join_allocated c same v none_ends =
      let fenced : Fenced size lists base = λ i. Clear-each size (base - 8) 8 (lists i) (λ n e.
        words_before base (tag + 8 - base) n (size n) (omega (arith, front)) base_words
          (laid.base_words i n e) (laid.size_words i n e) (omega (arith, room))
          (omega (arith, (free.listed.sized i n e).least)) (none_ends i n e)
          (Clear-In size base (tag + 8 - base) n (lists i) (clear i) e)) in
      let held : Holds g (store (base - 8) v h) size lists base (tag + 8) = record {
        free = IsFree-store (base - 8) v (omega (arith, front)) fenced free;
        laid = IsLaid-store (base - 8) v (omega (arith, front)) fenced laid;
        clear = clear;
        front = front;
        base_words = base_words;
        acme_words = acme_words;
      } in
      record {
        size = size;
        lists = lists;
        held = subst (λ b. Holds g (store (base - 8) v h) size lists b (tag + 8)) (sym same) held;
        fenced = subst (λ b. Fenced size lists b) (sym same) fenced;
        next = next;
        tagged = update_ne h.words (base - 8) tag v (omega (arith, room)) ∙ tagged;
        below = omega (arith, same);
      }

  join_free :
      (c : Chunk) (i n : ℕ)
      → c.base ≡ n
      → In n (lists i)
      → n + size n ≡ base
      → Joined g (remove_free n i h) c tag base above
  join_free c i n same e ends =
      let (xs, ys, there) = In-split n (lists i) e in
      let l = In-lt i n free e in
      let (held, _, fenced) = taken_Holds i n xs ys l there free laid in
      let rest = update lists i (xs ++ ys) in
      let least = (free.listed.sized i n e).least in
      let wide : Holds g (remove_free n i h) size rest n (tag + 8) = record {
        free = held.free;
        laid = held.laid;
        clear = λ j.
            Clear-joined size n base (tag + 8) (rest j) (lists-Large held.free.listed j)
              (omega (arith, ends)) (omega (arith, room))
              (subst (λ m. Clear size n (m - n) (rest j)) ends (held.clear j))
              (Clear-shorter free.listed i n xs ys l there base (tag + 8 - base) j (clear j));
        front = held.front;
        base_words = held.base_words;
        acme_words = acme_words;
      } in
      record {
        size = size;
        lists = rest;
        held = subst (λ b. Holds g (remove_free n i h) size rest b (tag + 8)) (sym same) wide;
        fenced = subst (λ b. Fenced size rest b) (sym same) fenced;
        next =
            BeginsAt-rest lists i n xs ys (tag + 8) there (omega (arith, ends, room, least)) above
              next (In-shorter free.listed i n xs ys l there);
        tagged =
            remove_free-keeps i n tag free.listed l e (omega (arith, front, room)) (
              Clear-part size base (tag + 8 - base) tag 8 (lists i) (omega (arith, room))
                (omega (arith, room)) (clear i))
            ∙ tagged;
        below = omega (arith, same, ends);
      }

even_word : (s : ℕ) → s % 8 ≡ 0 → is_allocated s ≡ false
even_word s e = ground (arith, e)

pub remove_free_by_head-class :
    (g : Geometry) (h : Heap) (n i : ℕ)
    → bin g (size_low h n) ≡ i
    → remove_free_by_head g n h ≡ remove_free n i h
unfolding remove_free_by_head
remove_free_by_head-class g h n i e = ap (λ k. remove_free n k h) e

abbrev flagged : ℕ → ℕ
flagged word = if word / 2 % 2 == 0 then word + is_above_free_flag else word

join_below-allocated :
    (g : Geometry) (h : Heap) (c : Chunk)
    → is_allocated (load h (c.base - 8)) ≡ true
    → join_below g c h ≡ (c, store (c.base - 8) (flagged (load h (c.base - 8))) h)
unfolding join_below toggle_above_free
join_below-allocated g h c e = rw e refl

join_below-free :
    (g : Geometry) (h : Heap) (c : Chunk) (n : ℕ) {after : Heap}
    → is_allocated (load h (c.base - 8)) ≡ false
    → tail_to_head h (tail_from_acme c.base) ≡ n
    → remove_free_by_head g n h ≡ after
    → join_below g c h ≡ (record c { base = n }, after)
unfolding join_below
join_below-free g h c n {after} e head e' = rw e (
    ap (λ m. (record c { base = m }, remove_free_by_head g m h)) head
    ∙ ap (λ k. (record c { base = n }, k)) e')

-- The chunk with the one below it, if that is free; else the tag below hears of a free chunk.
abbrev pub Below : Geometry → ℕ → ℕ → Bool → Chunk × Heap → Type 0
Below g tag base above (c, after) = (c.acme ≡ tag + 8) × Joined g after c tag base above

pub join_below_lem :
    {g : Geometry} {h : Heap} {size : ℕ → ℕ} {lists : ℕ → List ℕ} {tag base : ℕ} {above : Bool}
    → Holds g h size lists base (tag + 8)
    → base + node_size ≤ tag
    → BeginsAt lists (tag + 8) above
    → load h tag ≡ tag_word base above
    → EndsAt h size lists base
    → Below g tag base above (join_below g (record { base = base; acme = tag + 8 }) h)
join_below_lem {g} {h} {tag = tag} {base} {above} x room next tagged (inl (allocated, none_ends)) =
    let chunk : Chunk = record { base = base; acme = tag + 8 } in
    subst (λ r. Below g tag base above r) (sym (join_below-allocated g h chunk allocated))
      (refl, join_allocated x room next tagged chunk refl (flagged (load h (base - 8))) none_ends)
join_below_lem {g} {h} {size} {lists} {tag} {base} {above} x room next tagged
      (inr (i, n, e, ends)) =
    let free = x.free.listed.sized i n e in
    let high : load h (base - 8) ≡ size n =
      ap (λ q. load h q) (omega (arith, ends, free.least)) ∙ free.high in
    let free_below : is_allocated (load h (base - 8)) ≡ false =
      ap (λ w. is_allocated w) high ∙ even_word (size n) (x.laid.size_words i n e) in
    let head : tail_to_head h (tail_from_acme base) ≡ n =
      ap (λ s. base - 8 - (s - 8)) high ∙ omega (arith, ends, free.least) in
    let by_head = remove_free_by_head-class g h n i (ap (λ s. bin g s) free.low ∙ free.class) in
    subst (λ r. Below g tag base above r)
      (sym (join_below-free g h (record { base = base; acme = tag + 8 }) n free_below head by_head))
      (refl, join_free x room next tagged (record { base = n; acme = tag + 8 }) i n refl e ends)
