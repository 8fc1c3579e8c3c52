-- ===== src/Talc/Heap/Deallocated.antt =====
-- src/talc.rs: `deallocate` gives the chunk of a block back.
use evering.Base.{
  ℕ, ◌+◌, ◌%◌, ◌≤◌, ◌<◌, ◌≡◌, inl, refl, sym, ap, ◌∙◌, Bool, if◌then◌else◌, List, ◌∷◌, arith, subst,
  ne→==, update_self,
}
use evering.Talc.Geometry.{Geometry}
use evering.Talc.Heap.Memory.{Heap, load, to_base_rel, tag_word, from_alloc_base}
use evering.Talc.Heap.Chunks.{node_size, Chunk, min_chunk_size}
use evering.Talc.Heap.Blocks.{insert_chunk, join_below, join_above, deallocate}
use evering.Talc.Heap.Free.{In, IsFree}
use evering.Talc.Heap.Laid.{
  IsLaid, resized, class_of, with_chunk, insert_chunk-IsFree, insert_chunk-IsLaid, resized_new,
}
use evering.Talc.Heap.Carved.{Holds}
use evering.Talc.Heap.Joins.{BeginsAt, EndsAt, Below, join_below_lem}
use evering.Talc.Heap.Apart.{tag_word-base, Apart, IsApart, join_above_lem}

-- The chunk `base .. tag + 8` of a block whose tag is at `tag`: held, of room for a node, with a
-- tag that says of the place behind it whether a free chunk begins there, and before it the tag of
-- an allocated chunk or a free chunk.
pub record IsBlock (g : Geometry) (h : Heap) (size : ℕ → ℕ) (lists : ℕ → List ℕ) (base tag : ℕ)
    (above : Bool) : Type 0 where
  pub held : Holds g h size lists base (tag + 8)
  pub room : base + node_size ≤ tag
  pub tagged : load h tag ≡ tag_word base above
  pub next : BeginsAt lists (tag + 8) above
  pub prev : EndsAt h size lists base

-- Sound free lists, one chunk of which takes in the range.
pub record Freed (g : Geometry) (h : Heap) (base acme : ℕ) : Type 0 where
  pub size : ℕ → ℕ
  pub lists : ℕ → List ℕ
  pub free : IsFree g h size lists
  pub laid : IsLaid g h size lists
  pub idx : ℕ
  pub head : ℕ
  pub listed : In head (lists idx)
  pub from : head ≤ base
  pub to : acme ≤ head + size head

insert_chunk_lem :
    {g : Geometry} {base acme : ℕ}
    → 0 < g.bins
    → base + min_chunk_size ≤ acme
    → (c : Chunk) (h : Heap) → Apart g h c base acme
    → Freed g (insert_chunk g c h) base acme
insert_chunk_lem {g} {base} {acme} some_class room c h x =
    let y = x.held in
    let least : c.base + min_chunk_size ≤ c.acme = omega (arith, room, x.below, x.above) in
    let size = resized y.free y.laid some_class c.base c.acme least y.clear in
    let lists = with_chunk y.free y.laid some_class c.base c.acme least y.clear in
    let class = class_of y.free y.laid some_class c.base c.acme least y.clear in
    record {
      size = size;
      lists = lists;
      free =
          insert_chunk-IsFree y.free y.laid some_class c.base c.acme least y.clear
            (omega (arith, y.front));
      laid =
          insert_chunk-IsLaid y.free y.laid some_class c.base c.acme least y.clear y.front
            y.base_words y.acme_words x.fenced x.guard;
      idx = class;
      head = c.base;
      listed =
          subst (λ ns. In c.base ns) (sym (update_self x.lists class (c.base ∷ x.lists class)))
            (inl refl);
      from = x.below;
      to =
          omega (
            arith,
            x.above,
            resized_new y.free y.laid some_class c.base c.acme least y.clear,
            least,
          );
    }

joined_chunks : Geometry → ℕ → ℕ → Heap → Chunk × Heap
joined_chunks g base tag h =
    join_above g tag (join_below g (record { base = base; acme = tag + 8 }) h)

inserted : Geometry → Chunk × Heap → Heap
inserted g (c, h) = insert_chunk g c h

inserted_lem :
    {g : Geometry} {base acme : ℕ}
    → 0 < g.bins
    → base + min_chunk_size ≤ acme
    → (r : Chunk × Heap) → IsApart g base acme r
    → Freed g (inserted g r) base acme
unfolding inserted
inserted_lem some_class room (c, h) x = insert_chunk_lem some_class room c h x

deallocate-joined :
    (g : Geometry) (place sz base tag : ℕ) (above : Bool) (h : Heap)
    → 0 < sz
    → from_alloc_base h place sz ≡ tag
    → base % 8 ≡ 0
    → load h tag ≡ tag_word base above
    → deallocate g place sz h ≡ inserted g (joined_chunks g base tag h)
unfolding deallocate inserted joined_chunks
deallocate-joined g place sz base tag above h pos from w e =
    let base_is : to_base_rel (load h tag) ≡ base =
      ap (λ v. to_base_rel v) e ∙ tag_word-base base above w in
    ap
      (λ b.
        if b
        then h
        else inserted g (
            join_above g (from_alloc_base h place sz) (
              join_below g
                (record {
                  base = to_base_rel (load h (from_alloc_base h place sz));
                  acme = from_alloc_base h place sz + 8;
                })
                h)))
      (ne→== sz 0 (omega (arith, pos)))
    ∙ ap
        (λ t. inserted g (
          join_above g t (join_below g (record { base = to_base_rel (load h t); acme = t + 8 }) h)))
        from
    ∙ ap (λ b. inserted g (joined_chunks g b tag h)) base_is

Below-joined :
    {g : Geometry} {tag base : ℕ} {above : Bool}
    → base + node_size ≤ tag
    → base % 8 ≡ 0
    → (r : Chunk × Heap) → Below g tag base above r
    → IsApart g base (tag + 8) (join_above g tag r)
Below-joined {above = above} room w (c, h) (e, x) = join_above_lem room w e above x

-- On a heap of at least one class, `deallocate` of a block of a nonzero size, whose tag
-- `from_alloc_base` finds and whose chunk is as `IsBlock` says, gives the chunk back, whichever of
-- the chunks before and behind it are free: the free lists are sound after it, and one free chunk
-- takes in the whole chunk of the block.
pub deallocate_lem :
    {g : Geometry} {h : Heap} {size : ℕ → ℕ} {lists : ℕ → List ℕ} {base tag : ℕ} {above : Bool}
    (place sz : ℕ)
    → 0 < g.bins
    → 0 < sz
    → from_alloc_base h place sz ≡ tag
    → IsBlock g h size lists base tag above
    → Freed g (deallocate g place sz h) base (tag + 8)
unfolding joined_chunks
deallocate_lem {g} {h} {base = base} {tag} {above} place sz some_class pos from b =
    let w = b.held.base_words in
    subst (λ k. Freed g k base (tag + 8))
      (sym (deallocate-joined g place sz base tag above h pos from w b.tagged))
      (inserted_lem some_class (omega (arith, b.room)) (joined_chunks g base tag h) (
        Below-joined {above = above} b.room w
          (join_below g (record { base = base; acme = tag + 8 }) h)
          (join_below_lem b.held b.room b.next b.tagged b.prev)))
