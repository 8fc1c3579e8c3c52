-- ===== src/Directory/Create.antt =====
-- src/dir.rs: `create_in` from the claim of the transaction on, `grow` left out.
use evering.Base.{ℕ, false, Result, ok, err, panicked}
use evering.Steps.{◌>>=◌, ◌>>◌, read, write, done}
use evering.Talc.Mutation.{MutationError}
use evering.Directory.Memory.{
  held, evidence, pending_state, published, create_kind, entry_word, ProjectionError, Error, Meta,
  Region, pointer, offset_of, heap,
}
use evering.Directory.Lookup.{entry, Slot, EntryId, offset}
use evering.Directory.Transaction.{
  Run, persist, clear_pending, commit, drop, set_state, set_offset, set_closed, begin_mutation,
  commit_mutation, allocate_during, deallocate_during,
}

module _ (r : Region) (owner : ℕ) where
  -- The entry goes back to the word it had, and the transaction ends with an error.
  abbrev pub give_up : ℕ × ℕ → ℕ → Error → Run (Result EntryId Error)
  give_up at word e = do write (set_state at word); commit owner held; done (err e)

  -- From `admit_at` on, whose answer is `admitted`: the offset is published, or the block is given
  -- back. `?` on the heap drops the transaction.
  abbrev pub withdraw :
      Slot → ℕ × ℕ → Meta → ProjectionError → Result ℕ MutationError → Run (Result EntryId Error)
  withdraw slot at meta e (ok guard) = do
    deallocate_during meta
    write (set_state at slot.vacant)
    clear_pending owner
    commit_mutation
    commit owner held
    done (err (Error.admission e))
  withdraw slot at meta e (err x) = drop owner evidence >> done (err (heap x))
  withdraw slot at meta e panicked = done panicked

  abbrev pub publish :
      Slot → ℕ × ℕ → ℕ → Meta → Result (Unit {0}) ProjectionError → Run (Result EntryId Error)
  publish slot at offset meta (err e) = begin_mutation owner >>= withdraw slot at meta e
  publish slot at offset meta panicked = done panicked
  publish slot at offset meta (ok _) = do
    write (set_offset at offset)
    write (set_state at (entry_word slot.generation published))
    clear_pending owner
    commit owner held
    done (
        ok (record {
          region = r.id;
          slab = slot.slab;
          entry = slot.entry;
          generation = slot.generation;
        }))

  -- From `offset_of` on.
  abbrev pub prove :
      Slot
      → ℕ × ℕ
      → Meta
      → Result (Unit {0}) ProjectionError
      → Result ℕ ProjectionError
      → Run (Result EntryId Error)
  prove slot at meta admitted (ok offset) = do
    persist owner slot.slab slot.entry meta create_kind
    commit_mutation
    publish slot at offset meta admitted
  prove slot at meta admitted (err e) = do
    deallocate_during meta
    commit_mutation
    give_up at slot.vacant (Error.admission e)
  prove slot at meta admitted panicked = done panicked

  -- From the answer of the allocator on; the block is cleared.
  abbrev pub place_block :
      Slot
      → ℕ × ℕ
      → ℕ
      → Result (Unit {0}) ProjectionError
      → Result Meta MutationError
      → Run (Result EntryId Error)
  place_block slot at size admitted (err x) = do commit_mutation; give_up at slot.vacant (heap x)
  place_block slot at size admitted panicked = done panicked
  place_block slot at size admitted (ok meta) = do
    write (set_closed (pointer r meta) false)
    prove slot at meta admitted (offset_of r (pointer r meta) size)

  -- From the answer of `begin_mutation` on.
  abbrev pub allocate :
      Slot
      → ℕ × ℕ
      → ℕ
      → ℕ
      → Result (Unit {0}) ProjectionError
      → Result ℕ MutationError
      → Run (Result EntryId Error)
  allocate slot at size align admitted (err x) = give_up at slot.vacant (heap x)
  allocate slot at size align admitted panicked = done panicked
  allocate slot at size align admitted (ok guard) =
      allocate_during r size align >>= place_block slot at size admitted

  -- From the reserved entry on.
  unfoldable pub build :
      Slot → ℕ × ℕ → ℕ → ℕ → Result (Unit {0}) ProjectionError → Run (Result EntryId Error)
  build slot at size align admitted = do
    write (set_state at (entry_word slot.generation pending_state))
    begun ← begin_mutation owner
    allocate slot at size align admitted begun

  -- From the answer of `reserve` on.
  unfoldable pub fill :
      ℕ → ℕ → Result (Unit {0}) ProjectionError → Slot → Run (Result EntryId Error)
  fill size align admitted slot = do
    at ← read (λ m. entry r m slot.slab slot.entry)
    elim at [
      | ok at ↦ build slot at size align admitted
      | err e ↦ commit owner held >> done (err e)
      | panicked ↦ done panicked
    ]
