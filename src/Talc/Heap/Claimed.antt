-- ===== src/Talc/Heap/Claimed.antt =====
-- src/talc.rs: what `TalcMeta::claim` makes of memory that has no heap yet.
use evering.Base.{
  ℕ, zero, suc, ◌+◌, ◌-◌, ◌*◌, ◌%◌, ◌≤◌, ◌<◌, ◌≡◌, ◌⊎◌, inl, refl, sym, ap, ◌∙◌, Bool, true, not,
  ◌&&◌, ltb, leb, ◌==◌, if◌then◌else◌, Option, none, some, List, [], ◌∷◌, Result, ok, err, panicked,
  arith, update, eq→==, subst, leb→le, le→ltb, and_then, bit, bit_zero,
}
use evering.Talc.Geometry.{
  Geometry, GeometryError, availability_words, metadata_bytes, validate, sound, covers,
  min_metadata, invalid, bin, max_divisions_log,
}
use evering.Talc.Auto.{auto_lem}
use evering.Talc.Heap.Memory.{
  Heap, null, load, store, load_link, store_link, word_size, align_down, align_place, tag_size,
  tag_word, init_tag,
}
use evering.Talc.Heap.Chunks.{min_chunk_size, is_chunk_size}
use evering.Talc.Heap.Availability.{avail_word}
use evering.Talc.Heap.Blocks.{bin_by_idx, insert_free}
use evering.Talc.Heap.Claim.{
  Config, geometry_of, meta_size, clear_words, clear_links, claim_metadata, metadata_acme,
  claim_first, claim_with, claim,
}
use evering.Talc.Heap.Index.{flag}
use evering.Talc.Heap.Free.{Clear, IsFree, Settled}
use evering.Talc.Heap.Laid.{
  IsLaid, insert_free-bins, Clear-longer, resized, with_chunk, insert_chunk-IsFree,
  insert_chunk-IsLaid, resized_new,
}
use evering.Talc.Heap.Stores.{IsFree-store, IsLaid-store}

checked_lem :
    (size : ℕ) (g : Geometry) {g' : Geometry} (r : Result (Unit {0}) GeometryError)
    → validate g size ≡ r
    → and_then r (λ _. ok g) ≡ ok g'
    → (g ≡ g') × (r ≡ ok tt)
checked_lem size g {g'} (ok tt) e h = (ap (λ r. elim r [ ok x ↦ x | _ ↦ g ]) h, refl)
checked_lem size g (err x) e h = absurd (ground (arith, h))
checked_lem size g panicked e h = absurd (ground (arith, h))

-- Whatever geometry a configuration has passes `validate`.
geometry_of_lem :
    (size : ℕ) (own : Option Geometry) {g : Geometry}
    → geometry_of size own ≡ ok g
    → validate g size ≡ ok tt
geometry_of_lem size none {g} e = (auto_lem size g e).1
geometry_of_lem size (some g) e =
    let (same, valid) = checked_lem size g (validate g size) refl e in
    subst (λ k. validate k size ≡ ok tt) same valid

-- Three of the tests of `validate`, which all hold.
all_tests :
    (a b c d e f k l m n : Bool)
    → (let r : Result (Unit {0}) GeometryError =
          if (a && b && c && d && e && f && k && l && m) && n then ok tt else err invalid in
        r ≡ ok tt)
    → (c ≡ true) × (l ≡ true) × (m ≡ true)
all_tests a b c d e f k l m n h = ground (arith, h)

validate_lem :
    (g : Geometry) (size : ℕ)
    → validate g size ≡ ok tt
    → (0 < g.bins) × (availability_words g ≤ 64) × (metadata_bytes g + min_metadata ≤ size)
unfolding validate sound
validate_lem g size e =
    let (some_bins, few, room) =
      all_tests (leb min_chunk_size size) (g.reserved == 0) (not (g.bins == 0))
        (not (g.linear == 0)) (leb g.linear_shift g.exponential_log) (ltb g.exponential_log 64)
        (leb g.divisions_log max_divisions_log) (leb (availability_words g) 64)
        (leb (metadata_bytes g + min_metadata) size) (covers g size) e in
    (ground (arith, some_bins), leb→le _ _ few, leb→le _ _ room)

-- The loops set their words to zero and leave the others.
words_kept :
    (n place q : ℕ) (h : Heap)
    → (q + 8 ≤ place) ⊎ (place + 8 * n ≤ q)
    → load (clear_words n place h) q ≡ load h q
unfolding clear_words
words_kept zero place q h o = refl
words_kept (suc n) place q h o =
    words_kept n (place + 8) q (store place 0 h) (ground (arith, o)) ∙ ground (arith, o)

words_zero : (n place i : ℕ) (h : Heap) → i < n → load (clear_words n place h) (place + 8 * i) ≡ 0
unfolding clear_words
words_zero zero place i h l = absurd (omega (arith, l))
words_zero (suc n) place zero h l =
    words_kept n (place + 8) (place + 8 * 0) (store place 0 h) (inl (omega arith)) ∙ ground arith
words_zero (suc n) place (suc i) h l =
    ap (λ q. load (clear_words n (place + 8) (store place 0 h)) q) (omega arith)
    ∙ words_zero n (place + 8) i (store place 0 h) (omega (arith, l))

words_Settled : (n place : ℕ) (h : Heap) → Settled h (clear_words n place h)
unfolding clear_words
words_Settled zero place h = (refl, refl, refl, refl)
words_Settled (suc n) place h = words_Settled n (place + 8) (store place 0 h)

links_kept :
    (n place q : ℕ) (h : Heap)
    → (q + 8 ≤ place) ⊎ (place + 16 * n ≤ q)
    → load (clear_links n place h) q ≡ load h q
unfolding clear_links store_link
links_kept zero place q h o = refl
links_kept (suc n) place q h o =
    links_kept n (place + 16) q (store place 0 h) (ground (arith, o)) ∙ ground (arith, o)

links_zero : (n place i : ℕ) (h : Heap) → i < n → load (clear_links n place h) (place + 16 * i) ≡ 0
unfolding clear_links store_link
links_zero zero place i h l = absurd (omega (arith, l))
links_zero (suc n) place zero h l =
    links_kept n (place + 16) (place + 16 * 0) (store place 0 h) (inl (omega arith)) ∙ ground arith
links_zero (suc n) place (suc i) h l =
    ap (λ q. load (clear_links n (place + 16) (store place 0 h)) q) (omega arith)
    ∙ links_zero n (place + 16) i (store place 0 h) (omega (arith, l))

links_Settled : (n place : ℕ) (h : Heap) → Settled h (clear_links n place h)
unfolding clear_links store_link
links_Settled zero place h = (refl, refl, refl, refl)
links_Settled (suc n) place h = links_Settled n (place + 16) (store place 0 h)

load_link-none : (h : Heap) (p : ℕ) → load h p ≡ 0 → load_link h p ≡ none
unfolding load_link
load_link-none h p e = ground (arith, e)

abbrev pub no_lists : ℕ → List ℕ
no_lists i = []

-- After `claim_metadata` the lists are empty, and so the words say.
metadata-IsFree :
    (place : ℕ) (g : Geometry) (h : Heap) (size : ℕ → ℕ)
    → availability_words g ≤ 64
    → h.summary ≡ 0
    → IsFree g (claim_metadata place g h) size no_lists
unfolding claim_metadata
metadata-IsFree place g h size few fresh =
    let n = availability_words g in
    let bins = place + 8 * n in
    let after = claim_metadata place g h in
    let zero_word : (i : ℕ) → i < n → avail_word after i ≡ 0 = λ i l.
      links_kept g.bins bins (place + 8 * i) (clear_words n place h) (inl (omega (arith, l)))
      ∙ words_zero n place i h l in
    let summary : after.summary ≡ 0 =
      (links_Settled g.bins bins (clear_words n place h)).0 ∙ (words_Settled n place h).0 ∙ fresh in
    record {
      indexed = record {
        few = few;
        small = λ i l. omega (arith, zero_word i l);
        bits = λ i b l b_lt. ap (λ w. bit w b) (zero_word i l) ∙ bit_zero b;
        summary_small = omega (arith, summary);
        summary_bits = λ i l.
            ap (λ w. bit w i) summary
            ∙ bit_zero i
            ∙ ap (λ w. flag (not (w == 0))) (sym (zero_word i l));
        summary_above = λ i l. ap (λ w. bit w i) summary ∙ bit_zero i;
        bounded = λ k l. refl;
      };
      listed = record {
        linked = λ i l.
            load_link-none after (bins + 16 * i)
              (links_zero g.bins bins i (clear_words n place h) l);
        sized = λ i m e. absurd e;
        spread = λ i. tt;
        apart = λ i j m ne e. tt;
        metadata = omega arith;
      };
    }

empty-IsLaid : (g : Geometry) (h : Heap) (size : ℕ → ℕ) → IsLaid g h size no_lists
empty-IsLaid g h size = record {
  base_words = λ i m e. absurd e;
  size_words = λ i m e. absurd e;
  front = λ i m e. absurd e;
  fence = λ i j m e. tt;
}

-- Behind the metadata and the tag at their end lies one free chunk, up to the end of the memory.
abbrev pub first_chunk : ℕ → Geometry → ℕ
first_chunk base g = metadata_acme (base + tag_size) g + tag_size

large_enough : (n : ℕ) → min_chunk_size ≤ n → is_chunk_size n ≡ true
large_enough n h = ground (arith, h)

metadata-bins :
    (place : ℕ) (g : Geometry) (h : Heap)
    → bin_by_idx (claim_metadata place g h) g.bins ≡ metadata_acme place g
unfolding claim_metadata
metadata-bins place g h = refl

claim_first_lem :
    (g : Geometry) (base size : ℕ) (h : Heap)
    → 0 < g.bins
    → availability_words g ≤ 64
    → first_chunk base g + min_chunk_size ≤ base + size
    → base % 8 ≡ 0
    → size % 8 ≡ 0
    → h.summary ≡ 0
    → (sizes : ℕ → ℕ) × (lists : ℕ → List ℕ) × IsFree g (claim_first g base size h) sizes lists
      × IsLaid g (claim_first g base size h) sizes lists
      × (sizes (first_chunk base g) ≡ base + size - first_chunk base g)
      × (lists
          ≡ update no_lists (bin g (base + size - first_chunk base g)) (first_chunk base g ∷ []))
unfolding claim_first init_tag
claim_first_lem g base size h some_class few room base_words size_words fresh =
    let start = first_chunk base g in
    let acme = base + size in
    let h1 = store base (tag_word 0 true) h in
    let before = claim_metadata (base + tag_size) g h1 in
    let x = metadata-IsFree (base + tag_size) g h1 (λ _. 0) few fresh in
    let laid = empty-IsLaid g before (λ _. 0) in
    let places = metadata-bins (base + tag_size) g h1 in
    let none_free : (i : ℕ) → Clear (λ _. 0) start (acme - start) (no_lists i) = λ i. tt in
    let front : bin_by_idx before g.bins + 8 ≤ start = omega (arith, places) in
    let free_size : size - (start - base) ≡ acme - start = omega (arith, room) in
    let sizes = resized x laid some_class start acme room none_free in
    let lists = with_chunk x laid some_class start acme room none_free in
    let after = insert_free g start (acme - start) before in
    let free : IsFree g after sizes lists =
      insert_chunk-IsFree x laid some_class start acme room none_free (omega (arith, front)) in
    let laid' : IsLaid g after sizes lists =
      insert_chunk-IsLaid x laid some_class start acme room none_free front
        (omega (arith, base_words)) (omega (arith, base_words, size_words)) (λ i. tt)
        (λ i m e. absurd e) in
    let tag = metadata_acme (base + tag_size) g in
    let behind : bin_by_idx after g.bins ≤ tag =
      omega (arith, places, insert_free-bins g start (acme - start) before) in
    let apart : (i : ℕ) → Clear sizes tag 8 (lists i) = λ i.
      Clear-longer sizes no_lists (bin g (acme - start)) start tag 8 i (inl (omega arith))
        (λ j. tt) in
    let enough : is_chunk_size (size - (start - base)) ≡ true =
      large_enough (size - (start - base)) (omega (arith, room, free_size)) in
    (
      sizes,
      lists,
      subst (λ k. IsFree g k sizes lists) (sym (whole enough free_size))
          (IsFree-store tag (tag_word base true) behind apart free),
      subst (λ k. IsLaid g k sizes lists) (sym (whole enough free_size))
          (IsLaid-store tag (tag_word base true) behind apart laid'),
      resized_new x laid some_class start acme room none_free,
      refl,
    )
  where
    whole :
        is_chunk_size (size - (first_chunk base g - base)) ≡ true
        → size - (first_chunk base g - base) ≡ base + size - first_chunk base g
        → claim_first g base size h
          ≡ store (metadata_acme (base + tag_size) g) (tag_word base true) (
              insert_free g
                (first_chunk base g)
                (base + size - first_chunk base g)
                (claim_metadata (base + tag_size) g (store base (tag_word 0 true) h)))
    whole e e' = rw (e, e') refl

-- `claim` of memory without a heap, at an address of whole words, with whatever geometry its
-- configuration has, succeeds, and leaves a heap whose free lists are sound. They hold one chunk,
-- which begins behind the metadata and the tag at their end and reaches to the end of the memory.
pub one_chunk :
    (conf : Config) (g : Geometry) (h : Heap)
    → geometry_of conf.size conf.geometry ≡ ok g
    → h.bins ≡ null
    → h.summary ≡ 0
    → h.origin % 8 ≡ 0
    → let base = align_place h (meta_size + conf.forward) word_size in
      let start = first_chunk base g in
      let end_of = base + align_down conf.size word_size in
      ((claim conf h).0 ≡ ok tt)
      × ((sizes : ℕ → ℕ) × (lists : ℕ → List ℕ) × IsFree g (claim conf h).1 sizes lists
          × IsLaid g (claim conf h).1 sizes lists
          × (start + min_chunk_size ≤ end_of)
          × (sizes start ≡ end_of - start)
          × (lists ≡ update no_lists (bin g (end_of - start)) (start ∷ [])))
unfolding claim claim_with
one_chunk conf g h e fresh_bins fresh origin_words =
    let (some_class, few, fits) =
      validate_lem g conf.size (geometry_of_lem conf.size conf.geometry e) in
    let base = align_place h (meta_size + conf.forward) word_size in
    let size = align_down conf.size word_size in
    let base_words : base % 8 ≡ 0 = omega (arith, origin_words) in
    let room : first_chunk base g + min_chunk_size ≤ base + size = omega (arith, fits) in
    let first = claim_first_lem g base size h some_class few room base_words (omega arith) fresh in
    rw
      (
        e,
        eq→== h.bins null fresh_bins,
        le→ltb size (metadata_bytes g + 2 * tag_size) (omega (arith, fits)),
      )
      (refl, (first.0, first.1, first.2, first.3, room, first.4, first.5))
