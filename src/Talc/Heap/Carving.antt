-- ===== src/Talc/Heap/Carving.antt =====
-- src/talc.rs: `allocate` carves a block from a chunk that it has taken from the free lists.
use evering.Base.{
  ℕ, ◌+◌, ◌-◌, ◌%◌, ◌≤◌, ◌<◌, ◌≡◌, inl, inr, refl, true, false, List, arith, Bool-cases, subst,
}
use evering.Talc.Geometry.{Geometry}
use evering.Talc.Heap.Memory.{
  Heap, store, tag_size, tag_word, init_tag, acme_tag, toggle_above_free,
}
use evering.Talc.Heap.Chunks.{
  min_tag_offset, min_chunk_size, is_valid, max, min, split_prefix, split_suffix,
}
use evering.Talc.Heap.Blocks.{put_prefix, put_suffix}
use evering.Talc.Heap.Free.{Clear}
use evering.Talc.Heap.Stores.{IsFree-store, IsLaid-store}
use evering.Talc.Heap.Carved.{Holds, Guarded, Holds-store, prefix_Holds, suffix_Holds}

-- Free lists of some sizes, with a range that is held and holds the place.
abbrev pub Keeps : Geometry → Heap → ℕ → ℕ → Type 0
Keeps g h base acme =
    (size : ℕ → ℕ) × (lists : ℕ → List ℕ) × Holds g h size lists base acme × Guarded lists base acme

min_facts : (a b : ℕ) → (min a b ≤ a) × (min a b ≤ b) × (a % 8 ≡ 0 → b % 8 ≡ 0 → min a b % 8 ≡ 0)
min_facts a b = ground arith

max_facts : (a b : ℕ) → (a ≤ max a b) × (b ≤ max a b) × (a % 8 ≡ 0 → b % 8 ≡ 0 → max a b % 8 ≡ 0)
max_facts a b = ground arith

valid_room :
    (base acme : ℕ)
    → is_valid (record { base = base; acme = acme }) ≡ true
    → base + min_chunk_size ≤ acme
valid_room base acme e = ground (arith, e)

module _ {g : Geometry} {h : Heap} {size : ℕ → ℕ} {lists : ℕ → List ℕ} {base acme : ℕ}
    (some_class : 0 < g.bins) (x : Holds g h size lists base acme)
    (guard : Guarded lists base acme) where
  -- The prefix goes back to the lists where it is large enough; else the tag below hears of no free chunk.
  pub prefix_lem :
      (place : ℕ)
      → ((i : ℕ) → Clear size (base - 8) 8 (lists i))
      → base ≤ place
      → place % 8 ≡ 0
      → base + min_chunk_size ≤ acme
      → let (free, prefix) = split_prefix (record { base = base; acme = acme }) place in
        (free.acme ≡ acme)
        × (free.base ≤ place)
        × (free.base + min_chunk_size ≤ free.acme)
        × Keeps g (put_prefix g free.base prefix h) free.base free.acme
  unfolding split_prefix put_prefix toggle_above_free
  prefix_lem place fenced le words room =
      let m = min place (acme - min_chunk_size) in
      let (m_place, m_acme, m_words) = min_facts place (acme - min_chunk_size) in
      elim (Bool-cases (is_valid (record { base = base; acme = m }))) [
        | inl e ↦ rw e (
          refl,
          m_place,
          omega (arith, m_acme, room),
          prefix_Holds some_class x guard m (valid_room base m e) (omega (arith, m_acme))
              (m_words words (omega (arith, x.acme_words, room))) fenced,
        )
        | inr e ↦ rw e (
          refl,
          le,
          room,
          (
            size,
            lists,
            record {
              free = IsFree-store (base - 8) _ (omega (arith, x.front)) fenced x.free;
              laid = IsLaid-store (base - 8) _ (omega (arith, x.front)) fenced x.laid;
              clear = x.clear;
              front = x.front;
              base_words = x.base_words;
              acme_words = x.acme_words;
            },
            guard,
          ),
        )
      ]

  -- The suffix goes back where it is large enough, and the tag ends what is held.
  pub suffix_lem :
      (alloc_acme : ℕ)
      → base ≤ alloc_acme
      → alloc_acme % 8 ≡ 0
      → alloc_acme + 8 ≤ acme
      → base + min_chunk_size ≤ acme
      → let (kept, suffix, tag) = split_suffix (record { base = base; acme = acme }) alloc_acme in
        (alloc_acme ≤ tag)
        × ((size' : ℕ → ℕ) × (lists' : ℕ → List ℕ) × Holds g
              (put_suffix g tag kept.base suffix h)
              size'
              lists'
              base
              (tag + 8))
  unfolding split_suffix put_suffix init_tag
  suffix_lem alloc_acme le words within room =
      let tag = max (base + min_tag_offset) alloc_acme in
      let (base_tag, acme_tag, tag_words) = max_facts (base + min_tag_offset) alloc_acme in
      elim (Bool-cases (is_valid (record { base = tag + tag_size; acme = acme }))) [
        | inl e ↦
            let (size', lists', held) =
              suffix_Holds some_class x guard (tag + 8) (omega (arith, base_tag))
                (valid_room (tag + 8) acme e)
                (omega (arith, tag_words (omega (arith, x.base_words)) words)) in
            rw e (
              acme_tag,
              (size', lists', Holds-store tag _ (omega (arith, base_tag)) (omega arith) held),
            )
        | inr e ↦ rw e (
          omega (arith, within),
          (
            size,
            lists,
            subst (λ k. Holds g (store (acme - 8) (tag_word base false) h) size lists base k)
                (ended acme within)
                (Holds-store (acme - 8) _ (omega (arith, room)) (omega (arith, within)) x),
          ),
        )
      ]
    where
      ended : (a : ℕ) → alloc_acme + 8 ≤ a → a ≡ a - 8 + 8
      ended a l = omega (arith, l)
