-- ===== src/Talc/Heap/Apart.antt =====
-- src/talc.rs: `deallocate` joins the chunk of a block with a free one behind it.
use evering.Base.{
  ℕ, ◌+◌, ◌-◌, ◌%◌, ◌≤◌, ◌<◌, ◌≡◌, ◌≢◌, inl, inr, sym, ap, ap₂, ◌∙◌, Bool, true, false,
  if◌then◌else◌, List, arith, update, subst, ◌++◌,
}
use evering.Talc.Geometry.{Geometry, bin}
use evering.Talc.Heap.Memory.{Heap, load, to_base_rel, is_above_free, tag_word}
use evering.Talc.Heap.Chunks.{node_size, size_low, Chunk}
use evering.Talc.Heap.Blocks.{remove_free, remove_free_by_head, join_above}
use evering.Talc.Heap.Linked.{Off}
use evering.Talc.Heap.Free.{In, Clear-In, lists-Large}
use evering.Talc.Heap.Removed.{Clear-shorter, In-shorter}
use evering.Talc.Heap.Carved.{Holds, Guarded}
use evering.Talc.Heap.Allocated.{remove_free-bins, taken_Holds}
use evering.Talc.Heap.Ranges.{In-split, Clear-joined, In-lt}
use evering.Talc.Heap.Joins.{Fenced, Joined, remove_free_by_head-class}

pub tag_word-base :
    (base : ℕ) (above : Bool) → base % 8 ≡ 0 → to_base_rel (tag_word base above) ≡ base
unfolding tag_word
tag_word-base base true w = omega (arith, w)
tag_word-base base false w = ground (arith, w)

tag_word-above :
    (base : ℕ) (above : Bool) → base % 8 ≡ 0 → is_above_free (tag_word base above) ≡ above
unfolding tag_word
tag_word-above base true w = ground (arith, w)
tag_word-above base false w = ground (arith, w)

-- A chunk that can be inserted: held, with a fence before it and no chunk right behind it.
pub record Apart (g : Geometry) (h : Heap) (c : Chunk) (base acme : ℕ) : Type 0 where
  pub size : ℕ → ℕ
  pub lists : ℕ → List ℕ
  pub held : Holds g h size lists c.base c.acme
  pub fenced : Fenced size lists c.base
  pub guard : Guarded lists c.base c.acme
  pub below : c.base ≤ base
  pub above : acme ≤ c.acme

guarded_end :
    (lo p k s : ℕ)
    → lo ≤ p
    → 8 ≤ k
    → p % 8 ≡ 0
    → k % 8 ≡ 0
    → 0 < s
    → k ≢ p
    → Off lo (p - lo) k s
    → Off (k - 8) 8 lo (p - lo)
guarded_end lo p k s a b w w' pos ne (inl o) = inr (omega (arith, a, b, w, w', o, ne))
guarded_end lo p k s a b w w' pos ne (inr o) = inl (omega (arith, b, o))

guarded_both :
    (lo p q k s : ℕ)
    → lo ≤ p
    → p < q
    → 8 ≤ k
    → 0 < s
    → Off lo (p - lo) k s
    → Off p (q - p) k s
    → Off (k - 8) 8 p (q - p)
    → Off (k - 8) 8 lo (q - lo)
guarded_both lo p q k s a l b pos (inr o) o' e = inl (omega (arith, b, o))
guarded_both lo p q k s a l b pos (inl o) o' (inl e) =
    absurd (ground (arith, a, l, b, pos, o, o', e))
guarded_both lo p q k s a l b pos (inl o) o' (inr e) = inr (omega (arith, a, l, e))

module _ {g : Geometry} {h : Heap} {c : Chunk} {tag base : ℕ} (room : base + node_size ≤ tag) where
  above_allocated :
      (x : Joined g h c tag base false) → c.acme ≡ tag + 8 → Apart g h c base (tag + 8)
  above_allocated x e =
      let y = x.held in
      record {
        size = x.size;
        lists = x.lists;
        held = subst (λ a. Holds g h x.size x.lists c.base a) (sym e) y;
        fenced = x.fenced;
        guard = λ i k there.
            let chunk = y.free.listed.sized i k there in
            subst (λ a. Off (k - 8) 8 c.base (a - c.base)) (sym e)
              (guarded_end c.base (tag + 8) k (x.size k) (omega (arith, x.below, room))
                (omega (arith, y.laid.front i k there)) y.acme_words (y.laid.base_words i k there)
                (omega (arith, chunk.least))
                (λ same. x.next i (subst (λ m. In m (x.lists i)) same there))
                (Clear-In x.size c.base (tag + 8 - c.base) k (x.lists i) (y.clear i) there));
        below = x.below;
        above = omega (arith, e);
      }

  above_free :
      (x : Joined g h c tag base true) (i : ℕ)
      → In (tag + 8) (x.lists i)
      → c.acme ≡ tag + 8
      → Apart g
          (remove_free (tag + 8) i h)
          (record c { acme = tag + 8 + x.size (tag + 8) })
          base
          (tag + 8)
  above_free x i there e =
      let y = x.held in
      let p = tag + 8 in
      let size = x.size in
      let (xs, ys, parts) = In-split p (x.lists i) there in
      let l = In-lt i p y.free there in
      let listed = y.free.listed in
      let (held, guard, _) = taken_Holds i p xs ys l parts y.free y.laid in
      let rest = update x.lists i (xs ++ ys) in
      let shorter = Clear-shorter listed i p xs ys l parts in
      let least = (listed.sized i p there).least in
      let q = p + size p in
      record {
        size = size;
        lists = rest;
        held = record {
          free = held.free;
          laid = held.laid;
          clear = λ j.
              Clear-joined size c.base p q (rest j) (lists-Large held.free.listed j)
                (omega (arith, x.below, room)) (omega arith)
                (shorter c.base (p - c.base) j (y.clear j)) (held.clear j);
          front = omega (arith, remove_free-bins p i h, y.front);
          base_words = y.base_words;
          acme_words = held.acme_words;
        };
        fenced = λ j. shorter (c.base - 8) 8 j (x.fenced j);
        guard = λ j k e.
            let old = In-shorter listed i p xs ys l parts j k e in
            guarded_both c.base p q k (size k) (omega (arith, x.below, room)) (omega (arith, least))
              (omega (arith, y.laid.front j k old)) (omega (arith, (listed.sized j k old).least))
              (Clear-In size c.base (p - c.base) k (x.lists j) (y.clear j) old)
              (Clear-In size p (q - p) k (rest j) (held.clear j) e) (guard j k e);
        below = x.below;
        above = omega arith;
      }

above_step : Geometry → ℕ → Bool → Chunk → Heap → Chunk × Heap
above_step g tag above c h =
    if above
    then (record c { acme = c.acme + size_low h c.acme }, remove_free_by_head g c.acme h)
    else (c, h)

join_above-step :
    (g : Geometry) (tag base : ℕ) (above : Bool) (c : Chunk) (h : Heap)
    → base % 8 ≡ 0
    → load h tag ≡ tag_word base above
    → join_above g tag (c, h) ≡ above_step g tag above c h
unfolding join_above above_step
join_above-step g tag base above c h w e =
    ap (λ b. above_step g tag b c h) (ap (λ v. is_above_free v) e ∙ tag_word-above base above w)

-- The chunk of a block, joined with the one behind it.
abbrev pub IsApart : Geometry → ℕ → ℕ → Chunk × Heap → Type 0
IsApart g base acme (c, h) = Apart g h c base acme

pub join_above_lem :
    {g : Geometry} {h : Heap} {c : Chunk} {tag base : ℕ}
    → base + node_size ≤ tag
    → base % 8 ≡ 0
    → c.acme ≡ tag + 8
    → (above : Bool) → Joined g h c tag base above
    → IsApart g base (tag + 8) (join_above g tag (c, h))
unfolding above_step
join_above_lem {g} {h} {c} {tag} {base} room w e false x =
    subst (λ r. IsApart g base (tag + 8) r) (sym (join_above-step g tag base false c h w x.tagged))
      (above_allocated room x e)
join_above_lem {g} {h} {c} {tag} {base} room w e true x =
    let (i, there) = x.next in
    let chunk = x.held.free.listed.sized i (tag + 8) there in
    let by_head : remove_free_by_head g (tag + 8) h ≡ remove_free (tag + 8) i h =
      remove_free_by_head-class g h (tag + 8) i (ap (λ s. bin g s) chunk.low ∙ chunk.class) in
    let answer : (record c { acme = tag + 8 + x.size (tag + 8) }, remove_free (tag + 8) i h)
        ≡ (record c { acme = c.acme + size_low h c.acme }, remove_free_by_head g c.acme h) =
      ap₂ (λ s k. (record c { acme = tag + 8 + s }, k)) (sym chunk.low) (sym by_head)
      ∙ ap (λ a. (record c { acme = a + size_low h a }, remove_free_by_head g a h)) (sym e) in
    subst (λ r. IsApart g base (tag + 8) r)
      (answer ∙ sym (join_above-step g tag base true c h w x.tagged)) (above_free room x i there e)
