-- ===== src/Directory/Arms.antt =====
-- src/dir.rs: what each arm of `recover` does, for a heap that is not another participant's.
use evering.Base.{ℕ, ◌-◌, ◌^◌, ◌<◌, ◌≡◌, refl, ap, ◌∙◌, true, false, ◌==◌, ◌∷◌, Result, ok, arith}
use evering.Steps.{run, run_then}
use evering.Talc.Mutation.{
  mutation_clean, mutation_poisoned, mutation_state, poison_owner, claim, MutationState,
}
use evering.Talc.Mutation
use evering.Directory.Enter.{if_false, run-attempt, after_dead, same}
use evering.Directory.Memory.{
  clean, held, evidence, vacant, quarantined_state, entry_word, generation_of, owner_word, Error,
  Recovered, Memory, Region, deallocated,
}
use evering.Directory.Transaction.{
  Run, set_transaction, clear_pending, commit, put, set_mutation, begin_mutation, commit_mutation,
  deallocate_during,
}
use evering.Directory.Settle.{
  transfer, claim_heap_and_transfer, quarantine, undo, with_clean_heap, poison_dead, settle,
  reservation, creation, unknown,
}

pub put_at : (f : ℕ → ℕ → ℕ) (at : ℕ × ℕ) (w : ℕ) → put f at w at.0 at.1 ≡ w
unfolding put
put_at f at w = rw (same at.0, same at.1) refl

pub put-put :
    (f : ℕ → ℕ → ℕ) (at : ℕ × ℕ) (v w q k : ℕ) → put (put f at v) at w q k ≡ put f at w q k
unfolding put
put-put f at v w q k = ground arith

pub transfer_lem :
    (r : Region) (live dead word phase : ℕ) (m : Memory)
    → m.transaction ≡ word
    → run (transfer r live word dead phase) m ≡ (ok tt, set_transaction (owner_word live phase) m)
unfolding transfer
transfer_lem r live dead word phase m e = ground (arith, e)

pub commit_lem :
    (live phase : ℕ) (m : Memory)
    → m.transaction ≡ owner_word live phase
    → run (commit live phase) m ≡ (true, set_transaction clean m)
unfolding commit
commit_lem live phase m e = ground (arith, e)

pub poison_dead_lem :
    (r : Region) (live dead : ℕ) (m : Memory)
    → dead < 2 ^ 8
    → run (poison_dead r live dead) m ≡ (tt, set_mutation (after_dead dead m.mutation) m)
unfolding mutation_state poison_owner
poison_dead_lem r live dead m small = ground (arith, small)

with_clean :
    (r : Region) (live word : ℕ) (at : ℕ × ℕ) (go : Run (Result Recovered Error)) (m : Memory)
    → m.mutation ≡ mutation_clean
    → run (with_clean_heap r live word at go) m ≡ run go m
unfolding with_clean_heap mutation_state
with_clean r live word at go m e = ground (arith, e)

pub with_poisoned :
    (r : Region) (live word : ℕ) (at : ℕ × ℕ) (go : Run (Result Recovered Error)) (m : Memory)
    → m.mutation ≡ mutation_poisoned
    → run (with_clean_heap r live word at go) m ≡ run (quarantine r live word at) m
unfolding with_clean_heap mutation_state
with_poisoned r live word at go m e = ground (arith, e)

pub claim_heap_lem :
    (r : Region) (live dead word phase : ℕ) (m : Memory)
    → m.mutation ≡ mutation_clean
    → m.transaction ≡ word
    → run (claim_heap_and_transfer r live dead word phase) m ≡ (
      ok tt,
      record m { mutation = Mutation.owner_word live; transaction = owner_word live phase },
    )
unfolding claim_heap_and_transfer transfer begin_mutation claim
claim_heap_lem r live dead word phase m idle e = ground (arith, idle, e)

pub after_clean : (dead w : ℕ) → w ≡ mutation_clean → after_dead dead w ≡ mutation_clean
after_clean dead w e = ground (arith, e)

pub after_owned :
    (dead w : ℕ) → w ≡ Mutation.owner_word dead → after_dead dead w ≡ mutation_poisoned
after_owned dead w e = ground (arith, e)

pub quarantine_lem :
    (r : Region) (live dead : ℕ) (m : Memory) (at : ℕ × ℕ)
    → r.debug ≡ true
    → m.transaction ≡ owner_word dead evidence
    → dead < 2 ^ 8
    → (run (quarantine r live (owner_word dead evidence) at) m).1 ≡ record m {
      transaction = clean;
      state = put m.state at (entry_word (generation_of (m.state at.0 at.1)) quarantined_state);
    }
unfolding quarantine transfer commit
quarantine_lem r live dead m at on e small = ground (arith, on, e, small)

undo_lem :
    (r : Region) (live dead word : ℕ) (m : Memory) (at : ℕ × ℕ) (generation : ℕ)
    → (generation == 0) ≡ false
    → m.mutation ≡ mutation_clean
    → m.transaction ≡ word
    → (run (undo r live dead word evidence at generation) m).1 ≡ record m {
      transaction = clean;
      mutation = mutation_clean;
      state = put m.state at (entry_word (generation - 1) vacant);
      calls = deallocated m.pending ∷ m.calls;
    }
unfolding commit_mutation deallocate_during clear_pending Mutation.commit commit
undo_lem r live dead word m at generation young idle e =
    ap (λ z. z.1)
      (ap (λ q. run q m) (if_false (generation == 0) (quarantine r live word at) _ young)
        ∙ run-attempt (claim_heap_and_transfer r live dead word evidence) _ m
            (claim_heap_lem r live dead word evidence m idle e))
    ∙ ground arith

-- The arms, one by one. `m` is the memory, `p` the one after the heap of the dead is poisoned.
module _ (r : Region) (live dead word : ℕ) (m : Memory) (at : ℕ × ℕ) (generation : ℕ)
    (small : dead < 2 ^ 8) (e : m.transaction ≡ word) where
  pub settle_reservation :
      0 < generation
      → (run (settle r live reservation dead word held at generation) m).1 ≡ record m {
        transaction = clean;
        mutation = after_dead dead m.mutation;
        state = put m.state at (entry_word (generation - 1) vacant);
      }
  unfolding settle
  settle_reservation young =
      let p = set_mutation (after_dead dead m.mutation) m in
      ap (λ z. z.1)
        (run_then (poison_dead r live dead) _ m (poison_dead_lem r live dead m small)
          ∙ ap (λ q. run q p) (if_false (generation == 0) _ _ (ground (arith, young)))
          ∙ run-attempt (transfer r live word dead held) _ p
              (transfer_lem r live dead word held p e)
          ∙ run_then (commit live held) _ _ (commit_lem live held _ refl))

  -- The heap is clean: the block is given back.
  pub settle_creation :
      0 < generation
      → m.mutation ≡ mutation_clean
      → (run (settle r live creation dead word evidence at generation) m).1 ≡ record m {
        transaction = clean;
        mutation = mutation_clean;
        state = put m.state at (entry_word (generation - 1) vacant);
        calls = deallocated m.pending ∷ m.calls;
      }
  unfolding settle
  settle_creation young idle =
      let p = set_mutation (after_dead dead m.mutation) m in
      let q = after_clean dead m.mutation idle in
      ap (λ z. z.1)
        (run_then (poison_dead r live dead) _ m (poison_dead_lem r live dead m small)
          ∙ with_clean r live word at (undo r live dead word evidence at generation) p q)
      ∙ undo_lem r live dead word p at generation (ground (arith, young)) q e

  -- The heap was held by the dead participant: the entry is quarantined.
  pub settle_poisoned :
      m.mutation ≡ Mutation.owner_word dead
      → r.debug ≡ true
      → word ≡ owner_word dead evidence
      → (run (settle r live creation dead (owner_word dead evidence) evidence at generation) m).1
        ≡ record m {
          transaction = clean;
          mutation = after_dead dead m.mutation;
          state = put m.state at (entry_word (generation_of (m.state at.0 at.1)) quarantined_state);
        }
  unfolding settle
  settle_poisoned mine on w =
      let p = set_mutation (after_dead dead m.mutation) m in
      ap (λ z. z.1)
        (run_then (poison_dead r live dead) _ m (poison_dead_lem r live dead m small)
          ∙ with_poisoned r live (owner_word dead evidence) at
              (undo r live dead (owner_word dead evidence) evidence at generation) p
              (after_owned dead m.mutation mine))
      ∙ quarantine_lem r live dead p at on (e ∙ w) small

  pub settle_unknown :
      r.debug ≡ true
      → word ≡ owner_word dead evidence
      → (run (settle r live unknown dead word evidence at generation) m).1 ≡ record m {
        transaction = clean;
        mutation = after_dead dead m.mutation;
        state = put m.state at (entry_word (generation_of (m.state at.0 at.1)) quarantined_state);
      }
  unfolding settle with_clean_heap quarantine transfer commit mutation_state poison_owner
  settle_unknown on w = ground (arith, on, w, small, e)
