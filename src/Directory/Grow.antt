-- ===== src/Directory/Grow.antt =====
-- src/dir.rs: `grow`, `resume_rollback`, and `create_in` as a whole.
use evering.Base.{
  ℕ, ◌+◌, ◌-◌, ◌^◌, Bool, false, not, ◌&&◌, ◌||◌, leb, ◌==◌, if◌then◌else◌, Result, ok, err,
  panicked, update,
}
use evering.Steps.{◌>>=◌, ◌>>◌, read, write, done}
use evering.Talc.Mutation.{MutationError}
use evering.Directory.Memory.{
  held, rolling_back, vacant, create_kind, grow_kind, entry_word, generation_of, owner_word,
  ProjectionError, Error, Meta, Memory, Region, pointer, offset_of, slab_size, busy, full, stale,
  rolled_back, heap,
}
use evering.Directory.Lookup.{u32_max, slab, entry, Slot, reserve, tail, EntryId}
use evering.Directory.Transaction.{
  Run, claim_transaction, persist, clear_pending, commit, set_state, begin_mutation,
  commit_mutation, drop_mutation, allocate_during, deallocate_during,
}
use evering.Directory.Create.{fill}
use evering.Directory.Settle.{attempt}
use evering.Directory.Recover.{recover_growth}

abbrev pub attempt_err :
    {A E F : Type 0}
    → (E → F)
    → Result A E
    → (A → Run (Result (Unit {0}) F))
    → Run (Result (Unit {0}) F)
attempt_err wrap (ok a) f = f a
attempt_err wrap (err e) f = done (err (wrap e))
attempt_err wrap panicked f = done panicked

-- Slab::new() written at the offset of a slab
abbrev pub fresh_slab : ℕ → Memory → Memory
fresh_slab q m = record m {
  next = update m.next q 0;
  state = update m.state q (λ i. vacant);
  offset = update m.offset q (λ i. 0);
}

module _ (r : Region) (owner : ℕ) where
  -- From the offset of the new slab on.
  unfoldable pub link : ℕ → ℕ → Meta → ℕ → Run (Result (Unit {0}) Error)
  link index tail_slab meta q = do
    persist owner index 0 meta grow_kind
    commit_mutation
    write (λ m. record m { next = update m.next tail_slab q })
    clear_pending owner
    done (ok tt)

  -- From the answer of the allocator on; offset 0 is `unreachable!`.
  abbrev pub grow_block : ℕ → ℕ → Result Meta MutationError → Run (Result (Unit {0}) Error)
  grow_block index tail_slab (err e) = do commit_mutation; done (err (heap e))
  grow_block index tail_slab panicked = done panicked
  grow_block index tail_slab (ok meta) = do
    write (fresh_slab (pointer r meta - r.start))
    elim (offset_of r (pointer r meta) slab_size) [
      | ok q ↦ if q == 0 then done panicked else link index tail_slab meta q
      | err e ↦ (do deallocate_during meta; commit_mutation; done (err (Error.admission e)))
      | panicked ↦ done panicked
    ]

  abbrev pub grow_heap : ℕ → ℕ → Result ℕ MutationError → Run (Result (Unit {0}) Error)
  grow_heap index tail_slab (ok guard) =
      allocate_during r slab_size 8 >>= grow_block index tail_slab
  grow_heap index tail_slab (err e) = done (err (heap e))
  grow_heap index tail_slab panicked = done panicked

  unfoldable pub grow : Run (Result (Unit {0}) Error)
  grow = attempt (read (tail r)) (λ last.
      if leb u32_max last.0
      then done (err full)
      else begin_mutation owner >>= grow_heap (last.0 + 1) last.1)

  -- A creation of the owner itself that could not give its block back: `Transaction` is in phase
  -- ROLLING_BACK. `?` drops it, which changes nothing in that phase.
  abbrev pub roll_back : Result ℕ MutationError → Run (Result (Unit {0}) Error)
  roll_back (err e) = done (err (heap e))
  roll_back panicked = done panicked
  roll_back (ok guard) = do
    meta ← read (λ m. m.pending)
    deallocate_during meta
    slab ← read (λ m. m.pending_slab)
    i ← read (λ m. m.pending_entry)
    -- `?` drops the guard of the heap
    at ← read (λ m. if leb (2 ^ 32) slab then err stale else entry r m slab i)
    elim at [
      | ok at ↦ (do
        state ← read (λ m. m.state at.0 at.1)
        write (set_state at (entry_word (generation_of state - 1) vacant))
        clear_pending owner
        commit_mutation
        commit owner held
        done (ok tt))
      | err e ↦ drop_mutation >> done (err e)
      | panicked ↦ done panicked
    ]

  unfoldable pub resume_rollback : Run (Result (Unit {0}) Error)
  resume_rollback = do
    word ← read (λ m. m.transaction)
    if not (word == owner_word owner rolling_back) then done (err (busy owner)) else (do
      kind ← read (λ m. m.pending_kind)
      if kind == grow_kind
          then attempt
              (recover_growth r owner owner (owner_word owner rolling_back) rolling_back false)
              (λ _. done (ok tt))
          else (if kind == create_kind
              then begin_mutation owner >>= roll_back
              else done (err (busy owner))))

  abbrev pub ending : Error → Run (Result EntryId Error)
  ending e = do commit owner held; done (err e)

  -- The answer of `reserve` after the directory has grown.
  abbrev pub grown :
      ℕ
      → ℕ
      → Result (Unit {0}) ProjectionError
      → Result (Unit {0}) Error
      → Run (Result EntryId Error)
  grown size align admitted (err e) = ending e
  grown size align admitted panicked = done panicked
  grown size align admitted (ok _) = read (reserve r) >>= λ x. elim x [
    | ok slot ↦ fill r owner size align admitted slot
    | err e ↦ ending e
    | panicked ↦ done panicked
  ]

  abbrev pub reserving :
      ℕ → ℕ → Result (Unit {0}) ProjectionError → Result Slot Error → Run (Result EntryId Error)
  reserving size align admitted (ok slot) = fill r owner size align admitted slot
  reserving size align admitted (err full) = grow >>= grown size align admitted
  reserving size align admitted (err e) = ending e
  reserving size align admitted panicked = done panicked

  abbrev pub claiming :
      ℕ
      → ℕ
      → Result (Unit {0}) ProjectionError
      → Result (Unit {0}) Error
      → Run (Result EntryId Error)
  claiming size align admitted (ok _) = read (reserve r) >>= reserving size align admitted
  claiming size align admitted (err (busy other)) = do
    word ← read (λ m. m.transaction)
    if (other == owner) && (word == owner_word owner rolling_back)
        then attempt resume_rollback (λ _. done (err rolled_back))
        else done (err (busy other))
  claiming size align admitted (err e) = done (err e)
  claiming size align admitted panicked = done panicked

  -- `stored` is whether the storage of the configuration is the layout of `size` and `align`, and
  -- `admitted` the answer of `admit_at`.
  unfoldable pub create_in :
      Bool → ℕ → ℕ → Result (Unit {0}) ProjectionError → Run (Result EntryId Error)
  create_in stored size align admitted =
      if not (r.id == r.heap_id) || not stored
      then done (err stale)
      else claim_transaction owner >>= claiming size align admitted
