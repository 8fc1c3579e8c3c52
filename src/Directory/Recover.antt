-- ===== src/Directory/Recover.antt =====
-- src/dir.rs: `recover` and `recover_growth` as a whole.
use evering.Base.{
  ℕ, ◌-◌, ◌/◌, ◌%◌, ◌^◌, Bool, true, not, ◌&&◌, ◌||◌, leb, ◌==◌, if◌then◌else◌, Option, none, some,
  Result, ok, err, map_err,
}
use evering.Steps.{◌>>=◌, ◌>>◌, read, done}
use evering.Talc.Mutation.{MutationState, owned}
use evering.Directory.Memory.{
  clean, held, grow_kind, Error, Recovered, Meta, Region, pointer, offset_of, slab_size, busy,
  stale, retained,
}
use evering.Directory.Lookup.{slab, transition, offset}
use evering.Directory.Transaction.{Run, clear_pending, commit, commit_mutation, deallocate_during}
use evering.Directory.Settle.{
  proven, heap_state, attempt, transfer, claim_heap_and_transfer, finish, poison_dead, unplaced,
  recover_entry,
}

module _ (r : Region) (live : ℕ) where
  abbrev pub end_growth : ℕ → ℕ → ℕ → Recovered → Run (Result Recovered Error)
  end_growth word owner phase answer =
      attempt (transfer r live word owner phase) (λ _. finish r live answer)

  unfoldable pub recover_link : ℕ → ℕ → ℕ → Bool → Meta → ℕ → ℕ → Run (Result Recovered Error)
  recover_link owner word phase dead meta offset link =
      if link == offset
      then end_growth word owner phase retained
      else if not (link == 0)
      then end_growth word owner phase Recovered.quarantined
      else (do
        (if dead then poison_dead r live owner else done tt)
        state ← heap_state
        elim state [
          | MutationState.clean ↦ attempt (claim_heap_and_transfer r live owner word phase) (λ _. do
            deallocate_during (record { start = meta.start; size = slab_size })
            clear_pending live
            commit_mutation
            commit live held
            done (ok Recovered.rolled_back))
          | owned found ↦ done (err (busy found))
          | MutationState.poisoned ↦ end_growth word owner phase Recovered.quarantined
        ])

  unfoldable pub recover_growth : ℕ → ℕ → ℕ → Bool → Run (Result Recovered Error)
  recover_growth owner word phase dead = do
    index ← read (λ m. m.pending_slab)
    if leb (2 ^ 32) index || (index == 0) then done (err stale) else (do
      meta ← read (λ m. m.pending)
      attempt (done (map_err Error.admission (offset_of r (pointer r meta) slab_size))) (λ offset.
          attempt (read (λ m. slab r m (index - 1))) (λ before. do
            link ← read (λ m. m.next before)
            recover_link owner word phase dead meta offset link)))

  -- The entry that the evidence names, or else one in transition.
  unfoldable pub location : ℕ → Run (Result (Option (ℕ × ℕ)) Error)
  location phase =
      if proven phase
      then (do
        slab ← read (λ m. m.pending_slab)
        i ← read (λ m. m.pending_entry)
        done (ok (some (slab % 2 ^ 32, i))))
      else read (transition r)

  abbrev pub recover_entries : ℕ → ℕ → ℕ → ℕ → Run (Result Recovered Error)
  recover_entries dead word phase kind = attempt (location phase) (λ found. elim found [
    | some (slab, i) ↦ recover_entry r live dead word phase kind slab i
    | none ↦ unplaced r live dead word phase
  ])

  unfoldable pub recover_word : ℕ → ℕ → ℕ → Run (Result Recovered Error)
  recover_word dead word phase = do
    kind ← read (λ m. m.pending_kind)
    if proven phase && (kind == grow_kind)
        then recover_growth dead word phase true
        else recover_entries dead word phase kind

  -- The phase of the transaction that `dead` left.
  unfoldable pub phase_left : ℕ → ℕ → Result ℕ Error
  phase_left dead word =
      if word == clean
      then err stale
      else if (word / 2 ^ 2 - 1) % 2 ^ 8 == dead
      then ok (word % 2 ^ 2)
      else err (busy ((word / 2 ^ 2 - 1) % 2 ^ 8))

  unfoldable pub recover : ℕ → Run (Result Recovered Error)
  recover dead =
      if r.id == r.heap_id
      then (do
        word ← read (λ m. m.transaction)
        attempt (done (phase_left dead word)) (recover_word dead word))
      else done (err stale)
