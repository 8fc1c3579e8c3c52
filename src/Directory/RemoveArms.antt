-- ===== src/Directory/RemoveArms.antt =====
-- src/dir.rs: what the arms of `recover` for removals do, and `quarantine` in a release build.
use evering.Base.{
  ℕ, ◌-◌, ◌^◌, ◌<◌, ◌≡◌, ◌⊎◌, inl, inr, refl, ap, ◌∙◌, true, false, ◌∷◌, ok, err, arith,
}
use evering.Steps.{run, run_then}
use evering.Talc.Mutation.{
  mutation_clean, mutation_poisoned, mutation_state, poison_owner, clear_dead_owner, claim,
  MutationState, owned,
}
use evering.Talc.Mutation
use evering.Directory.Memory.{
  clean, evidence, rolling_back, vacant, released_state, quarantined_state, entry_word,
  generation_of, owner_word, Recovered, Memory, Region, pointer, busy, deallocated,
}
use evering.Directory.Transaction.{
  claim_transaction, clear_pending, commit, drop, put, set_mutation, commit_mutation,
  deallocate_during,
}
use evering.Directory.Settle.{
  cleared_or_blocked, closed_or_not, reopen_or_release, vacate, clear_dead, transfer,
  claim_heap_and_transfer, quarantine, release, poison_dead, settle, close_unfinished,
  release_unfinished, vacate_unfinished, removal,
}
use evering.Directory.Enter.{run-attempt, after_dead}
use evering.Directory.Arms.{
  claim_heap_lem, poison_dead_lem, with_poisoned, after_owned, quarantine_lem,
}

clear_dead_lem :
    (dead : ℕ) (m : Memory)
    → (m.mutation ≡ Mutation.owner_word dead) ⊎ (m.mutation ≡ mutation_clean)
    → run (clear_dead dead) m ≡ (true, set_mutation mutation_clean m)
unfolding clear_dead_owner
clear_dead_lem dead m (inl e) = ground (arith, e)
clear_dead_lem dead m (inr e) = ground (arith, e)

release_lem :
    (r : Region) (live dead word : ℕ) (m : Memory) (at : ℕ × ℕ) (generation : ℕ)
    → m.mutation ≡ mutation_clean
    → m.transaction ≡ word
    → (run (release r live dead word evidence at generation) m).1 ≡ record m {
      transaction = clean;
      mutation = mutation_clean;
      state =
          put
            (put m.state at (entry_word generation released_state))
            at
            (entry_word generation vacant);
      calls = deallocated m.pending ∷ m.calls;
    }
unfolding commit_mutation deallocate_during clear_pending Mutation.commit commit
release_lem r live dead word m at generation idle e =
    ap (λ z. z.1)
      (run-attempt (claim_heap_and_transfer r live dead word evidence) _ m
        (claim_heap_lem r live dead word evidence m idle e))
    ∙ ground arith

vacate_lem :
    (r : Region) (live dead word : ℕ) (m : Memory) (at : ℕ × ℕ) (generation : ℕ)
    → m.transaction ≡ word
    → (run (vacate r live dead word evidence at generation) m).1
      ≡ record m { transaction = clean; state = put m.state at (entry_word generation vacant) }
unfolding clear_pending commit transfer
vacate_lem r live dead word m at generation e = ground (arith, e)

module _ (r : Region) (live dead word : ℕ) (m : Memory) (at : ℕ × ℕ) (generation : ℕ)
    (e : m.transaction ≡ word) where
  pub settle_closed :
      m.mutation ≡ Mutation.owner_word dead
      → m.closed (pointer r m.pending) ≡ true
      → (run (settle r live close_unfinished dead word evidence at generation) m).1 ≡ record m {
        transaction = clean;
        mutation = mutation_clean;
        state =
            put
              (put m.state at (entry_word generation released_state))
              at
              (entry_word generation vacant);
        calls = deallocated m.pending ∷ m.calls;
      }
  unfolding settle
  settle_closed mine shut =
      let c = set_mutation mutation_clean m in
      ap (λ z. z.1)
        (run_then (clear_dead dead)
            (cleared_or_blocked r live word at
              (closed_or_not r live dead word evidence at generation))
            m (clear_dead_lem dead m (inl mine))
          ∙ ap (λ b. run (reopen_or_release r live dead word evidence at generation b) c) shut)
      ∙ release_lem r live dead word c at generation refl e

  pub settle_released :
      (m.mutation ≡ Mutation.owner_word dead) ⊎ (m.mutation ≡ mutation_clean)
      → (run (settle r live release_unfinished dead word evidence at generation) m).1 ≡ record m {
        transaction = clean;
        mutation = mutation_clean;
        state = put m.state at (entry_word generation vacant);
      }
  unfolding settle clear_pending commit
  settle_released free =
      let c = set_mutation mutation_clean m in
      ap (λ z. z.1)
        (run_then (clear_dead dead)
          (cleared_or_blocked r live word at (vacate r live dead word evidence at generation)) m
          (clear_dead_lem dead m free))
      ∙ vacate_lem r live dead word c at generation e

  pub settle_vacated :
      m.mutation ≡ mutation_clean
      → (run (settle r live vacate_unfinished dead word evidence at generation) m).1
        ≡ record m { transaction = clean }
  unfolding settle clear_pending commit mutation_state transfer
  settle_vacated idle = ground (arith, idle, e)

  pub settle_removing :
      dead < 2 ^ 8
      → m.mutation ≡ Mutation.owner_word dead
      → r.debug ≡ true
      → word ≡ owner_word dead evidence
      → (run (settle r live removal dead (owner_word dead evidence) evidence at generation) m).1
        ≡ record m {
          transaction = clean;
          mutation = after_dead dead m.mutation;
          state = put m.state at (entry_word (generation_of (m.state at.0 at.1)) quarantined_state);
        }
  unfolding settle
  settle_removing small mine on w =
      let p = set_mutation (after_dead dead m.mutation) m in
      ap (λ z. z.1)
        (run_then (poison_dead r live dead) _ m (poison_dead_lem r live dead m small)
          ∙ with_poisoned r live (owner_word dead evidence) at
              (release r live dead (owner_word dead evidence) evidence at generation) p
              (after_owned dead m.mutation mine))
      ∙ quarantine_lem r live dead p at on (e ∙ w) small

-- When debug assertions are off, the quarantine of an entry from the evidence of a dead
-- participant below 256 answers that it did so and leaves the transaction to the recovering
-- participant, of a slot below 255, in rollback; right after that a claim of the transaction by
-- anybody is refused and names that participant.
pub quarantine_held :
    (r : Region) (live dead other : ℕ) (m : Memory) (at : ℕ × ℕ)
    → r.debug ≡ false
    → dead < 2 ^ 8
    → live < 2 ^ 8 - 1
    → m.transaction ≡ owner_word dead evidence
    → let (answer, m') = run (quarantine r live (owner_word dead evidence) at) m in
      (answer ≡ ok Recovered.quarantined)
      × (m'.transaction ≡ owner_word live rolling_back)
      × (run (claim_transaction other) m' ≡ (err (busy live), m'))
unfolding quarantine transfer drop claim_transaction
quarantine_held r live dead other m at off small low e = ground (arith, off, small, low, e)
