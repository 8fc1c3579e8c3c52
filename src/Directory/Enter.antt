-- ===== src/Directory/Enter.antt =====
-- src/dir.rs: from the transaction word to the arm of `recover`.
use evering.Base.{
  ap₂, ℕ, ◌-◌, ◌/◌, ◌%◌, ◌^◌, ◌<◌, ◌≡◌, refl, ap, ◌∙◌, Bool, true, false, ◌==◌, if◌then◌else◌, none,
  some, Result, ok, arith, eq→==,
}
use evering.Steps.{read, run, done, run_then}
use evering.Talc.Mutation.{
  mutation_clean, mutation_poisoned, mutation_state, poison_owner, claim, MutationState,
}
use evering.Talc.Mutation
use evering.Directory.Memory.{
  clean, held, evidence, grow_kind, state_of, generation_of, owner_word, Memory, Region,
}
use evering.Directory.Lookup.{slab, entry, transition}
use evering.Directory.Transaction.{Run, commit}
use evering.Directory.Settle.{
  Operation, operation, attempt, transfer, settle, unplaced, recover_entry,
}
use evering.Directory.Recover.{recover_word, recover, phase_left, location}

pub same : (a : ℕ) → (a == a) ≡ true
same a = eq→== a a refl

-- The heap's word after the dead participant is poisoned, where it held it.
abbrev pub after_dead : ℕ → ℕ → ℕ
after_dead dead word = if word == Mutation.owner_word dead then mutation_poisoned else word

word_nonzero : (dead phase : ℕ) → (owner_word dead phase == clean) ≡ false
word_nonzero dead phase = ground arith

word_dead :
    (dead phase : ℕ) → dead < 2 ^ 8 → phase < 4 → (owner_word dead phase / 2 ^ 2 - 1) % 2 ^ 8 ≡ dead
word_dead dead phase h h' = omega (arith, h, h')

word_phase : (dead phase : ℕ) → phase < 4 → owner_word dead phase % 2 ^ 2 ≡ phase
word_phase dead phase h' = omega (arith, h')

phase_left_lem :
    (r : Region) (live dead phase : ℕ)
    → dead < 2 ^ 8
    → phase < 4
    → phase_left r live dead (owner_word dead phase) ≡ ok phase
unfolding phase_left
phase_left_lem r live dead phase h h' =
    rw (word_nonzero dead phase, word_dead dead phase h h', same dead, word_phase dead phase h')
      refl

pub if_true : {A : Type 0} (b : Bool) (p q : A) → b ≡ true → (if b then p else q) ≡ p
if_true true p q e = refl
if_true false p q e = absurd (ground (arith, e))

pub if_false : {A : Type 0} (b : Bool) (p q : A) → b ≡ false → (if b then p else q) ≡ q
if_false false p q e = refl
if_false true p q e = absurd (ground (arith, e))

pub run-attempt :
    {A B E : Type 0} (p : Run (Result A E)) (f : A → Run (Result B E)) (m : Memory) {a : A}
    {m' : Memory}
    → run p m ≡ (ok a, m')
    → run (attempt p f) m ≡ run (f a) m'
run-attempt p f m e = run_then p _ m e

unplaced_lem :
    (r : Region) (live dead : ℕ) (m : Memory)
    → dead < 2 ^ 8
    → m.transaction ≡ owner_word dead held
    → (run (unplaced r live dead (owner_word dead held) held) m).1
      ≡ record m { transaction = clean; mutation = after_dead dead m.mutation }
unfolding unplaced transfer commit mutation_state poison_owner
unplaced_lem r live dead m small e = ground (arith, e, small)

module _ (r : Region) (live dead : ℕ) (m : Memory) (same_region : r.id ≡ r.heap_id)
    (small : dead < 2 ^ 8) where
  -- `recover` once it has read the transaction word.
  recover_enter :
      (phase : ℕ)
      → phase < 4
      → m.transaction ≡ owner_word dead phase
      → run (recover r live dead) m ≡ run (recover_word r live dead (owner_word dead phase) phase) m
  unfolding recover
  recover_enter phase low e =
      ap (λ p. run p m) (if_true (r.id == r.heap_id) _ _ (eq→== r.id r.heap_id same_region))
      ∙ ap (λ w. run (attempt (done (phase_left r live dead w)) (recover_word r live dead w)) m) e
      ∙ ap (λ v. run (attempt (done v) (recover_word r live dead (owner_word dead phase))) m)
          (phase_left_lem r live dead phase small low)

  entry_settled :
      (phase kind slab i generation word : ℕ) (at : ℕ × ℕ) (o : Operation)
      → entry r m slab i ≡ ok at
      → operation kind (state_of (m.state at.0 at.1)) phase ≡ o
      → generation_of (m.state at.0 at.1) ≡ generation
      → run (recover_entry r live dead word phase kind slab i) m
        ≡ run (settle r live o dead word phase at generation) m
  unfolding recover_entry
  entry_settled phase kind slab i generation word at o here which age =
      run-attempt (read (λ m. entry r m slab i)) _ m (ap (λ x. (x, m)) here)
      ∙ ap₂ (λ x y. run (settle r live x dead word phase at y) m) which age

  -- From the transaction word to the arm, by the scan for an entry in transition.
  pub held_settled :
      (slab i generation : ℕ) (at : ℕ × ℕ) (o : Operation)
      → m.transaction ≡ owner_word dead held
      → transition r m ≡ ok (some (slab, i))
      → entry r m slab i ≡ ok at
      → operation m.pending_kind (state_of (m.state at.0 at.1)) held ≡ o
      → generation_of (m.state at.0 at.1) ≡ generation
      → run (recover r live dead) m
        ≡ run (settle r live o dead (owner_word dead held) held at generation) m
  unfolding recover_word location
  held_settled slab i generation at o e found here which age =
      recover_enter held (omega arith) e
      ∙ run-attempt (location r live held) _ m (ap (λ x. (x, m)) found)
      ∙ entry_settled held m.pending_kind slab i generation (owner_word dead held) at o here which
          age

  -- And by the evidence of a creation or a removal.
  pub evidence_settled :
      (slab i generation : ℕ) (at : ℕ × ℕ) (o : Operation)
      → m.transaction ≡ owner_word dead evidence
      → (m.pending_kind == grow_kind) ≡ false
      → m.pending_slab % 2 ^ 32 ≡ slab
      → m.pending_entry ≡ i
      → entry r m slab i ≡ ok at
      → operation m.pending_kind (state_of (m.state at.0 at.1)) evidence ≡ o
      → generation_of (m.state at.0 at.1) ≡ generation
      → run (recover r live dead) m
        ≡ run (settle r live o dead (owner_word dead evidence) evidence at generation) m
  unfolding recover_word location
  evidence_settled slab i generation at o e other s p here which age =
      recover_enter evidence (omega arith) e
      ∙ ap (λ p. run p m) (if_false (m.pending_kind == grow_kind) _ _ other)
      ∙ ap₂
          (λ x y.
            run (recover_entry r live dead (owner_word dead evidence) evidence m.pending_kind x y)
              m)
          s p
      ∙ entry_settled evidence m.pending_kind slab i generation (owner_word dead evidence) at o here
          which age

  -- No entry is in transition: the transaction ends, and the heap is poisoned where the dead
  -- participant held it.
  pub recover_idle :
      m.transaction ≡ owner_word dead held
      → transition r m ≡ ok none
      → (run (recover r live dead) m).1
        ≡ record m { transaction = clean; mutation = after_dead dead m.mutation }
  unfolding recover_word location
  recover_idle e none_left =
      ap (λ z. z.1)
        (recover_enter held (omega arith) e
          ∙ run-attempt (location r live held) _ m (ap (λ x. (x, m)) none_left))
      ∙ unplaced_lem r live dead m small e
