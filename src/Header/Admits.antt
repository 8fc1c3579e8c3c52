-- ===== src/Header/Admits.antt =====
-- src/header.rs, `admit` by a lone participant: initialization and what later admissions see of it.
use evering.Base.{
  ℕ, ◌≡◌, refl, arith, true, none, some, List, [], ◌∷◌, ap, ◌∙◌, ok, update, suc, List, ◌∙◌, ap,
}
use evering.Atomic.{run, ret, run-first, ◌>>=◌}
use evering.Cells.{Cells, apply}
use evering.Header.Fields
use evering.Header.Fields.{
  Body, Context, initialized, AdmitError, invalid_header, mismatch, LayoutField,
}
use evering.Header.Admission.{
  admit, inspect_at, initialize, extent_check, header_fields, from_u8, write_all, recorded_at,
  check_all, admit_from, expected, after_record, membership_word, after_checks,
}
use evering.Header.Membership.{Membership}

-- The cells after the writes of an initialization that succeeds.
abbrev pub admitted : Body → Context → ℕ × ℕ → Membership → Cells → Cells
admitted b ctx layout slot s =
    let s1 =
      (run apply (write_all (header_fields b ctx layout slot)) (update s Fields.status 1)).1 in
    update (update s1 Fields.inner b.initial) Fields.status 2

-- The fields of a list of checks hold the values expected.
abbrev Holds : Cells → List (ℕ × ℕ × LayoutField) → Type 0
Holds s [] = Unit {0}
Holds s ((place, value, field) ∷ rest) = (s place ≡ value) × Holds s rest

check_step :
    (s : Cells) (place value : ℕ) (field : LayoutField) (rest : List (ℕ × ℕ × LayoutField))
    → s place ≡ value
    → run apply (check_all ((place, value, field) ∷ rest)) s ≡ run apply (check_all rest) s
unfolding check_all apply
check_step s place value field rest h = ground (arith, h)

check_all_lem :
    (s : Cells) (l : List (ℕ × ℕ × LayoutField)) → Holds s l → run apply (check_all l) s ≡ (none, s)
unfolding check_all apply
check_all_lem s [] h = refl
check_all_lem s ((place, value, field) ∷ rest) h =
    check_step s place value field rest h.0 ∙ check_all_lem s rest h.1

module _ (b : Body) (ctx : Context) (layout : ℕ × ℕ) (slot : Membership) (s : Cells) where
  initialize_lem :
      b.init_status ≡ initialized
      → run apply (initialize b ctx layout slot) (update s Fields.status 1)
        ≡ (ok tt, admitted b ctx layout slot s)
  unfolding initialize write_all apply
  initialize_lem e = rw e refl

  admit_step :
      (rounds : ℕ)
      → ctx.allow_init ≡ true
      → s Fields.status ≡ 0
      → run apply (admit_from (suc rounds) b ctx layout slot) s
        ≡ run apply (initialize b ctx layout slot >>= λ r. ret (some r)) (update s Fields.status 1)
  unfolding admit_from from_u8 apply
  admit_step rounds ea e = ground (arith, e, ea)

  admit_storage :
      (rounds : ℕ)
      → b.storage ≡ some layout
      → run apply (admit rounds b ctx slot) s ≡ run apply (admit_from rounds b ctx layout slot) s
  unfolding admit
  admit_storage rounds es = ground (arith, es)

  admit_first :
      (rounds : ℕ)
      → b.storage ≡ some layout
      → ctx.allow_init ≡ true
      → b.init_status ≡ initialized
      → s Fields.status ≡ 0
      → run apply (admit (suc rounds) b ctx slot) s ≡ (some (ok tt), admitted b ctx layout slot s)
  admit_first rounds es ea ei e =
      admit_storage (suc rounds) es
      ∙ admit_step rounds ea e
      ∙ run-first apply (initialize b ctx layout slot) (λ r. ret (some r))
          (update s Fields.status 1) (initialize_lem ei)

  recorded_admitted :
      run apply (recorded_at ctx) (admitted b ctx layout slot s)
      ≡ (extent_check ctx layout.0 layout.1, admitted b ctx layout slot s)
  unfolding recorded_at from_u8 write_all apply
  recorded_admitted = refl

  checked :
      run apply (check_all (expected b ctx)) (admitted b ctx layout slot s)
      ≡ (none, admitted b ctx layout slot s)
  unfolding write_all apply
  checked = check_all_lem (admitted b ctx layout slot s) (expected b ctx) (
    refl,
    (
      refl,
      (refl, (refl, (refl, (refl, (refl, (refl, (refl, (refl, (refl, (refl, (refl, tt))))))))))),
    ),
  )

  inspect_admitted :
      extent_check ctx layout.0 layout.1 ≡ none
      → run apply (inspect_at b ctx) (admitted b ctx layout slot s)
        ≡ (ok b.info, admitted b ctx layout slot s)
  unfolding inspect_at after_record after_checks write_all apply
  inspect_admitted e =
      run-first apply (recorded_at ctx) (after_record b ctx) (admitted b ctx layout slot s)
        (recorded_admitted ∙ ap (λ r. (r, admitted b ctx layout slot s)) e)
      ∙ run-first apply (check_all (expected b ctx)) after_checks (admitted b ctx layout slot s)
          checked

  -- On a fresh header, whose layout has storage and initializes its body, `admit` with leave to
  -- initialize ends in its first round: it succeeds, the header is initialized and its only member
  -- is the one asked for. When the extent holds a record and its alignment suits the address,
  -- `inspect_at` by the same layout then answers the information value, and changes nothing.
  pub admit_inspect :
      (rounds : ℕ)
      → b.storage ≡ some layout
      → ctx.allow_init ≡ true
      → b.init_status ≡ initialized
      → s Fields.status ≡ 0
      → extent_check ctx layout.0 layout.1 ≡ none
      → let (answer, s') = run apply (admit (suc rounds) b ctx slot) s in
        (answer ≡ some (ok tt))
        × (s' Fields.status ≡ 2)
        × (s' Fields.members ≡ membership_word slot)
        × (run apply (inspect_at b ctx) s' ≡ (ok b.info, s'))
  admit_inspect rounds es ea ei e x =
      rw (admit_first rounds es ea ei e) (refl, two_there, bit_there, inspect_admitted x)
    where
      two_there : admitted b ctx layout slot s Fields.status ≡ 2
      two_there = unfold write_all in unfold apply in refl

      bit_there : admitted b ctx layout slot s Fields.members ≡ membership_word slot
      bit_there = unfold write_all in unfold apply in refl
