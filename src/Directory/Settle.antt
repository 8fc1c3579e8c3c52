-- ===== src/Directory/Settle.antt =====
-- src/dir.rs: `recover`, which ends the transaction of a dead participant from the evidence it left.
use evering.Base.{
  ℕ, ◌-◌, ◌%◌, ◌^◌, Bool, not, ◌&&◌, ◌||◌, ◌==◌, if◌then◌else◌, Option, none, some, Result, ok, err,
  panicked,
}
use evering.Steps.{◌>>=◌, ◌>>◌, read, write, done, step}
use evering.Talc.Mutation.{MutationState, owned, mutation_state, poison_owner, clear_dead_owner}
use evering.Directory.Memory.{
  held, evidence, rolling_back, vacant, pending_state, published, closing, removing, released_state,
  quarantined_state, create_kind, remove_kind, entry_word, state_of, generation_of, owner_word,
  word_owner, Error, Recovered, Region, pointer, busy, stale, heap,
}
use evering.Directory.Lookup.{slab, entry}
use evering.Directory.Transaction.{
  Run, exchange, clear_pending, commit, drop, set_state, set_mutation, begin_mutation,
  commit_mutation, deallocate_during,
}

-- The arms that `recover` has for what it finds: kind, state of the entry, phase.
pub data Operation : Type 0 where
  close_unfinished release_unfinished vacate_unfinished reservation creation removal unknown :
      Operation

-- EVIDENCE | ROLLING_BACK
abbrev pub proven : ℕ → Bool
proven phase = (phase == evidence) || (phase == rolling_back)

unfoldable pub operation : ℕ → ℕ → ℕ → Operation
operation kind s phase =
    if (kind == remove_kind) && (s == closing) && proven phase
    then close_unfinished
    else if (kind == remove_kind) && (s == released_state) && proven phase
    then release_unfinished
    else if (kind == remove_kind) && (s == vacant) && proven phase
    then vacate_unfinished
    else if (s == pending_state) && (phase == held)
    then reservation
    else if (kind == create_kind) && (s == pending_state) && proven phase
    then creation
    else if (kind == remove_kind) && (s == removing) && proven phase
    then removal
    else unknown

abbrev pub owner_or : ℕ → Option ℕ → ℕ
owner_or dead none = dead
owner_or dead (some owner) = owner

abbrev pub heap_state : Run MutationState
heap_state = read (λ m. mutation_state m.mutation)

abbrev pub poison : ℕ → Run Bool
poison dead =
    step (λ m. set_mutation (poison_owner dead m.mutation).1 m)
      (λ m. done (poison_owner dead m.mutation).0)

abbrev pub clear_dead : ℕ → Run Bool
clear_dead dead =
    step (λ m. set_mutation (clear_dead_owner dead m.mutation).1 m)
      (λ m. done (clear_dead_owner dead m.mutation).0)

-- Goes on after a success.
abbrev pub attempt : {A B E : Type 0} → Run (Result A E) → (A → Run (Result B E)) → Run (Result B E)
attempt p f =
    p >>= λ answer. elim answer [ ok a ↦ f a | err e ↦ done (err e) | panicked ↦ done panicked ]

module _ (r : Region) (live : ℕ) where
  unfoldable pub transfer : ℕ → ℕ → ℕ → Run (Result (Unit {0}) Error)
  transfer word dead phase = do
    found ← exchange word (owner_word live phase)
    done (if found == word then ok tt else err (busy (owner_or dead (word_owner found))))

  unfoldable pub claim_heap_and_transfer : ℕ → ℕ → ℕ → Run (Result (Unit {0}) Error)
  claim_heap_and_transfer dead word phase = do
    begun ← begin_mutation live
    elim begun [
      | err x ↦ done (err (heap x))
      | panicked ↦ done panicked
      | ok guard ↦ (do
        moved ← transfer word dead phase
        elim moved [
          | ok u ↦ done (ok u)
          | err e ↦ commit_mutation >> done (err e)
          | panicked ↦ done panicked
        ])
    ]

  -- The last accesses of a transaction that holds evidence.
  abbrev pub finish : Recovered → Run (Result Recovered Error)
  finish answer = do clear_pending live; commit live held; done (ok answer)

  -- `debug_assert!(held.commit())`: without debug assertions nothing is committed, and the transaction
  -- is dropped.
  unfoldable pub quarantine : ℕ → ℕ × ℕ → Run (Result Recovered Error)
  quarantine word at = elim (word_owner word) [
    | none ↦ done (err stale)
    | some dead ↦ attempt (transfer word dead (word % 2 ^ 2)) (λ _. do
      state ← read (λ m. m.state at.0 at.1)
      write (set_state at (entry_word (generation_of state) quarantined_state))
      (if r.debug then commit live (word % 2 ^ 2) >> done tt else drop live (word % 2 ^ 2))
      done (ok Recovered.quarantined))
  ]

  -- MutationState::Clean after a failed `clear_dead_owner` is `unreachable!()`.
  abbrev pub blocked : ℕ → ℕ × ℕ → Run (Result Recovered Error)
  blocked word at = do
    state ← heap_state
    elim state [
      | owned owner ↦ done (err (busy owner))
      | MutationState.poisoned ↦ quarantine word at
      | MutationState.clean ↦ done panicked
    ]

  -- A removal that closed its header: the block is given back and the entry becomes vacant.
  abbrev pub release : ℕ → ℕ → ℕ → ℕ × ℕ → ℕ → Run (Result Recovered Error)
  release dead word phase at generation = attempt (claim_heap_and_transfer dead word phase) (λ _. do
    meta ← read (λ m. m.pending)
    deallocate_during meta
    write (set_state at (entry_word generation released_state))
    commit_mutation
    write (set_state at (entry_word generation vacant))
    finish Recovered.released)

  -- A creation that did not get as far as its publication: the entry goes back a generation.
  abbrev pub undo : ℕ → ℕ → ℕ → ℕ × ℕ → ℕ → Run (Result Recovered Error)
  undo dead word phase at generation =
      if generation == 0
      then quarantine word at
      else attempt (claim_heap_and_transfer dead word phase) (λ _. do
        meta ← read (λ m. m.pending)
        deallocate_during meta
        write (set_state at (entry_word (generation - 1) vacant))
        clear_pending live
        commit_mutation
        commit live held
        done (ok Recovered.rolled_back))

  -- After the heap of the dead is poisoned, where it held it.
  unfoldable pub with_clean_heap :
      ℕ → ℕ × ℕ → Run (Result Recovered Error) → Run (Result Recovered Error)
  with_clean_heap word at go = do
    state ← heap_state
    elim state [
      | owned owner ↦ done (err (busy owner))
      | MutationState.poisoned ↦ quarantine word at
      | MutationState.clean ↦ go
    ]

  abbrev pub poison_dead : ℕ → Run (Unit {0})
  poison_dead dead = do
    state ← heap_state
    elim state [
      | owned owner ↦ if owner == dead then poison dead >> done tt else done tt
      | _ ↦ done tt
    ]

  -- After `clear_dead_owner`: `go`, where it succeeded.
  abbrev pub cleared_or_blocked :
      ℕ → ℕ × ℕ → Run (Result Recovered Error) → Bool → Run (Result Recovered Error)
  cleared_or_blocked word at go cleared = if cleared then go else blocked word at

  -- A removal whose header is not closed is taken back.
  abbrev pub reopen_or_release : ℕ → ℕ → ℕ → ℕ × ℕ → ℕ → Bool → Run (Result Recovered Error)
  reopen_or_release dead word phase at generation shut =
      if shut
      then release dead word phase at generation
      else attempt (transfer word dead phase) (λ _. do
        write (set_state at (entry_word generation published))
        finish Recovered.rolled_back)

  abbrev pub closed_or_not : ℕ → ℕ → ℕ → ℕ × ℕ → ℕ → Run (Result Recovered Error)
  closed_or_not dead word phase at generation = do
    meta ← read (λ m. m.pending)
    shut ← read (λ m. m.closed (pointer r meta))
    reopen_or_release dead word phase at generation shut

  abbrev pub vacate : ℕ → ℕ → ℕ → ℕ × ℕ → ℕ → Run (Result Recovered Error)
  vacate dead word phase at generation =
      attempt (transfer word dead phase)
        (λ _. do write (set_state at (entry_word generation vacant)); finish Recovered.released)

  unfoldable pub settle : Operation → ℕ → ℕ → ℕ → ℕ × ℕ → ℕ → Run (Result Recovered Error)
  settle close_unfinished dead word phase at generation =
      clear_dead dead >>= cleared_or_blocked word at (closed_or_not dead word phase at generation)
  settle release_unfinished dead word phase at generation =
      clear_dead dead >>= cleared_or_blocked word at (vacate dead word phase at generation)
  settle vacate_unfinished dead word phase at generation = do
    state ← heap_state
    let go = attempt (transfer word dead phase) (λ _. finish Recovered.released)
    elim state [ owned owner ↦ if owner == dead then go else done (err (busy owner)) | _ ↦ go ]
  settle reservation dead word phase at generation = do
    poison_dead dead
    if generation == 0
        then quarantine word at
        else attempt (transfer word dead phase) (λ _. do
          write (set_state at (entry_word (generation - 1) vacant))
          commit live phase
          done (ok Recovered.rolled_back))
  settle creation dead word phase at generation = do
    poison_dead dead
    with_clean_heap word at (undo dead word phase at generation)
  settle removal dead word phase at generation = do
    poison_dead dead
    with_clean_heap word at (release dead word phase at generation)
  settle unknown dead word phase at generation = do poison_dead dead; quarantine word at

  -- No entry is in transition.
  abbrev pub transfer_and_clear : ℕ → ℕ → Recovered → Run (Result Recovered Error)
  transfer_and_clear word dead answer =
      attempt (transfer word dead held) (λ _. commit live held >> done (ok answer))

  unfoldable pub unplaced : ℕ → ℕ → ℕ → Run (Result Recovered Error)
  unplaced dead word phase =
      if not (phase == held)
      then done (err stale)
      else heap_state >>= (λ state. elim state [
        | owned owner ↦
            if owner == dead
            then poison dead >> transfer_and_clear word dead Recovered.quarantined
            else transfer_and_clear word dead Recovered.rolled_back
        | _ ↦ transfer_and_clear word dead Recovered.rolled_back
      ])

  unfoldable pub recover_entry : ℕ → ℕ → ℕ → ℕ → ℕ → ℕ → Run (Result Recovered Error)
  recover_entry dead word phase kind slab i = attempt (read (λ m. entry r m slab i)) (λ at. do
    state ← read (λ m. m.state at.0 at.1)
    settle (operation kind (state_of state) phase) dead word phase at (generation_of state))
