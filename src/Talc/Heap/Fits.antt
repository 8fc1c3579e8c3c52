-- ===== src/Talc/Heap/Fits.antt =====
-- src/talc.rs: where a block lies in the chunk that it is carved from.
use native.Mathlib.Nat.{
  mod-add-div', mod-lt, mod-eq-zero_of_dvd, dvd_of_mod-eq-zero, dvd-mul_left_of_dvd, dvd-mul_left,
}
use evering.Base.{
  ℕ, ◌+◌, ◌-◌, ◌/◌, ◌%◌, ◌≤◌, ◌<◌, ◌≡◌, refl, ap, ◌∙◌, Bool, true, false, not, ◌&&◌, ltb, leb,
  if◌then◌else◌, none, some, arith, subst, ltb→lt, ltb→le, leb→le, leb→lt,
}
use evering.Talc.Heap.Memory.{Heap, word_size, align_up, align_place}
use evering.Talc.Heap.Chunks.{size_low, head_to_acme, chunk_size}
use evering.Talc.Heap.Blocks.{fit}

align_up_le : (n align : ℕ) → 0 < align → n ≤ align_up n align
align_up_le n align h = omega (arith, mod-add-div' (n + align - 1) align, mod-lt (n + align - 1) h)

align_up_words : (n align : ℕ) → align % 8 ≡ 0 → align_up n align % 8 ≡ 0
align_up_words n align e =
    mod-eq-zero_of_dvd 8 (dvd-mul_left_of_dvd 8 (dvd_of_mod-eq-zero 8 e) ((n + align - 1) / align))

align_up_multiple : (n align : ℕ) → align_up n align % align ≡ 0
align_up_multiple n align = mod-eq-zero_of_dvd align (dvd-mul_left align ((n + align - 1) / align))

-- What the documentation of `acquire_chunk` says of its answer.
pub record Fits (h : Heap) (size align n acme place : ℕ) : Type 0 where
  pub from : n ≤ place
  pub within : place + chunk_size size ≤ acme
  pub aligned : word_size < align → (h.origin + place) % align ≡ 0
  pub words : place % 8 ≡ 0

-- A place rounded up to an alignment that is a multiple of a word.
aligned_place :
    (h : Heap) (size align n acme : ℕ)
    → word_size < align
    → align % 8 ≡ 0
    → h.origin % 8 ≡ 0
    → align_place h n align + chunk_size size ≤ acme
    → Fits h size align n acme (align_place h n align)
aligned_place h size align n acme wide words origin_words le =
    let least = align_up_le (h.origin + n) align (omega (arith, wide)) in
    let back : h.origin + align_place h n align ≡ align_up (h.origin + n) align =
      omega (arith, least) in
    record {
      from = omega (arith, least);
      within = le;
      aligned = λ _. ap (λ k. k % align) back ∙ align_up_multiple (h.origin + n) align;
      words = omega (arith, least, origin_words, align_up_words (h.origin + n) align words);
    }

narrow :
    (h : Heap) (size align n : ℕ)
    → 0 < align
    → leb (chunk_size size) (size_low h n) ≡ false
    → align_place h n align + chunk_size size ≤ head_to_acme h n
    → ⊥
narrow h size align n pos e le =
    omega (arith, le, leb→lt _ _ e, align_up_le (h.origin + n) align pos)

fit_cases :
    (h : Heap) (size align n : ℕ) {place : ℕ} (room wide inside : Bool)
    → leb (chunk_size size) (size_low h n) ≡ room
    → ltb word_size align ≡ wide
    → leb (align_place h n align + chunk_size size) (head_to_acme h n) ≡ inside
    → 0 < align
    → (word_size < align → align % 8 ≡ 0)
    → h.origin % 8 ≡ 0
    → n % 8 ≡ 0
    → (if room && not wide then some n else if inside then some (align_place h n align) else none)
      ≡ some place
    → Fits h size align n (head_to_acme h n) place
fit_cases h size align n true false inside r w i pos power origin_words words e =
    subst (λ p. Fits h size align n (head_to_acme h n) p)
      (ap (λ o. elim o [ some p ↦ p | none ↦ n ]) e)
      (record {
        from = omega arith;
        within = omega (arith, leb→le _ _ r);
        aligned = λ l. absurd (omega (arith, l, ltb→le _ _ w));
        words = words;
      })
fit_cases h size align n room true true r w i pos power origin_words words e =
    subst (λ p. Fits h size align n (head_to_acme h n) p)
      (ap (λ o. elim o [ some p ↦ p | none ↦ align_place h n align ]) e)
      (aligned_place h size align n (head_to_acme h n) (ltb→lt _ _ w) (power (ltb→lt _ _ w))
        origin_words (leb→le _ _ i))
fit_cases h size align n false false true r w i pos power origin_words words e =
    absurd (narrow h size align n pos r (leb→le _ _ i))
fit_cases h size align n false wide false r w i pos power origin_words words e =
    absurd (ground (arith, e))
fit_cases h size align n true true false r w i pos power origin_words words e =
    absurd (ground (arith, e))

-- A place that fits lies in the chunk with the room that a chunk of its size wants, at a multiple of its
-- alignment.
pub fit_lem :
    (h : Heap) (size align n : ℕ) {place : ℕ}
    → 0 < align
    → (word_size < align → align % 8 ≡ 0)
    → h.origin % 8 ≡ 0
    → n % 8 ≡ 0
    → fit h size align n ≡ some place
    → Fits h size align n (head_to_acme h n) place
unfolding fit
fit_lem h size align n {place} pos power origin_words words e =
    fit_cases h size align n (leb (chunk_size size) (size_low h n)) (ltb word_size align)
      (leb (align_place h n align + chunk_size size) (head_to_acme h n)) refl refl refl pos power
      origin_words words e
