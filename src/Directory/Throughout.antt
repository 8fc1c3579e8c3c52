-- ===== src/Directory/Throughout.antt =====
-- src/dir.rs: what holds at every access of the parts that transactions are made of.
use evering.Base.{
  ℕ, ◌≡◌, ◌⊎◌, inl, inr, refl, sym, ap, ◌==◌, Option, none, some, Result, ok, err, Bool-cases,
  eq→==, subst,
}
use evering.Steps.{done, Throughout, ◌>>=◌}
use evering.Talc.Mutation.{MutationError, claim, mutation_clean}
use evering.Talc.Mutation
use evering.Directory.Memory.{clean, owner_word, Meta, Memory, Region, allocated}
use evering.Directory.Transaction.{
  Run, set_transaction, commit, set_mutation, begin_mutation, called, allocation, allocate_during,
}
use evering.Directory.Enter.{if_true}

claim_cases :
    (owner w : ℕ)
    → (claim owner w ≡ (ok owner, Mutation.owner_word owner))
      ⊎ ((e : MutationError) × (claim owner w ≡ (err e, w)))
unfolding claim
claim_cases owner w = elim (Bool-cases (w == mutation_clean)) [
  | inl h ↦ inl (rw (h) refl)
  | inr h ↦ inr (elim (Bool-cases (w == Mutation.mutation_poisoned)) [
    | inl k ↦ (MutationError.poisoned, rw (h, k) refl)
    | inr k ↦ (Mutation.busy (Mutation.word_slot w), rw (h, k) refl)
  ])
]

module _ (P : Memory → Type 0) where
  pub Throughout-begin :
      {B : Type 0} (owner : ℕ) (f : Result ℕ MutationError → Run B) (m : Memory)
      → P m
      → Throughout P (f (ok owner)) (set_mutation (Mutation.owner_word owner) m)
      → ((e : MutationError) → Throughout P (f (err e)) m)
      → Throughout P (begin_mutation owner >>= f) m
  unfolding begin_mutation
  Throughout-begin owner f m now got lost =
      (now, go (claim owner m.mutation) (claim_cases owner m.mutation))
    where
      go :
          (x : Result ℕ MutationError × ℕ)
          → (x ≡ (ok owner, Mutation.owner_word owner))
            ⊎ ((e : MutationError) × (x ≡ (err e, m.mutation)))
          → Throughout P (f x.0) (set_mutation x.1 m)
      go x (inl e) = subst (λ y. Throughout P (f y.0) (set_mutation y.1 m)) (sym e) got
      go x (inr (e, h)) = subst (λ y. Throughout P (f y.0) (set_mutation y.1 m)) (sym h) (lost e)

  pub Throughout-begin_clean :
      {B : Type 0} (owner : ℕ) (f : Result ℕ MutationError → Run B) (m : Memory)
      → P m
      → m.mutation ≡ mutation_clean
      → Throughout P (f (ok owner)) (set_mutation (Mutation.owner_word owner) m)
      → Throughout P (begin_mutation owner >>= f) m
  unfolding begin_mutation claim
  Throughout-begin_clean owner f m now idle got = (
    now,
    subst (λ y. Throughout P (f y.0) (set_mutation y.1 m)) (sym (ap (claim owner) idle)) got,
  )

  pub Throughout-allocate :
      {B : Type 0} (r : Region) (size align : ℕ) (f : Result Meta MutationError → Run B)
      (m : Memory)
      → P m
      → ((meta : Meta) → Throughout P (f (ok meta)) (called (allocated meta) m))
      → Throughout P (f (err MutationError.exhausted)) m
      → Throughout P (allocate_during r size align >>= f) m
  unfolding allocate_during
  Throughout-allocate r size align f m now got lost = (now, go (allocation r size align m))
    where
      go :
          (x : Option Meta)
          → Throughout P
              ((elim x [ none ↦ done (err MutationError.exhausted) | some meta ↦ done (ok meta) ])
                >>= f)
              (elim x [ none ↦ m | some meta ↦ called (allocated meta) m ])
      go none = lost
      go (some meta) = got meta

  -- The end of a transaction that is held.
  pub Throughout-commit :
      {B : Type 0} (owner phase : ℕ) (b : B) (m : Memory)
      → P m
      → m.transaction ≡ owner_word owner phase
      → P (set_transaction clean m)
      → Throughout P (commit owner phase >>= λ _. done b) m
  unfolding commit
  Throughout-commit owner phase b m now e after = (
    now,
    subst P
        (sym (
          if_true (m.transaction == owner_word owner phase) (set_transaction clean m) m
            (eq→== m.transaction (owner_word owner phase) e)))
        after,
  )
