-- ===== src/Directory/Remove.antt =====
-- src/dir.rs: `remove_in`.
use evering.Base.{
  ℕ, ◌+◌, ◌-◌, true, not, ◌&&◌, ◌||◌, ltb, leb, ◌==◌, if◌then◌else◌, Option, none, some, Result, ok,
  err, panicked,
}
use evering.Steps.{◌>>=◌, ◌>>◌, read, write, done}
use evering.Header.Fields.{CloseError}
use evering.Talc.Mutation.{MutationError}
use evering.Directory.Memory.{
  held, vacant, published, closing, removing, released_state, remove_kind, entry_word, Error, Meta,
  Region, pointer, stale, heap, close,
}
use evering.Directory.Lookup.{entry, EntryId, offset}
use evering.Directory.Transaction.{
  Run, claim_transaction, persist, clear_pending, commit, set_state, set_closed, begin_mutation,
  commit_mutation, deallocate_during,
}

-- The mapped layout that the caller gives: its region, its offset in it, and its address.
pub record Mapped : Type 0 where
  pub region : ℕ
  pub offset : ℕ
  pub address : ℕ

module _ (r : Region) (owner : ℕ) where
  -- The removal of a closed header.
  unfoldable pub retire : EntryId → ℕ × ℕ → Meta → Run (Result (Unit {0}) Error)
  retire id at meta = do
    write (set_state at (entry_word id.generation removing))
    deallocate_during meta
    write (set_state at (entry_word id.generation released_state))
    commit_mutation
    write (set_state at (entry_word id.generation vacant))
    clear_pending owner
    commit owner held
    done (ok tt)

  -- From the answer of `close_unique` on.
  abbrev pub after_close :
      EntryId → ℕ × ℕ → Meta → Result (Unit {0}) CloseError → Run (Result (Unit {0}) Error)
  after_close id at meta (ok _) = do write (set_closed (pointer r meta) true); retire id at meta
  after_close id at meta panicked = done panicked
  after_close id at meta (err e) = do
    write (set_state at (entry_word id.generation published))
    clear_pending owner
    commit_mutation
    commit owner held
    done (err (close e))

  -- From the answer of `begin_mutation` on; `closes` is what `close_unique` answers.
  abbrev pub closing_entry :
      EntryId
      → ℕ × ℕ
      → Meta
      → Result (Unit {0}) CloseError
      → Result ℕ MutationError
      → Run (Result (Unit {0}) Error)
  closing_entry id at meta closes (err e) = do commit owner held; done (err (heap e))
  closing_entry id at meta closes panicked = done panicked
  closing_entry id at meta closes (ok guard) = do
    write (set_state at (entry_word id.generation closing))
    persist owner id.slab id.entry meta remove_kind
    after_close id at meta closes

  -- MapTalc::meta_for: the span of a block that lies in the part of the heap that can be allocated.
  -- `lower` and `bound` are the two ends of that part, from the base of the heap on.
  unfoldable pub meta_for : ℕ → ℕ → ℕ → ℕ → Option Meta
  meta_for lower bound address size =
      if ltb address r.heap_base
      then none
      else if leb lower (address - r.heap_base) && leb (address - r.heap_base + size) bound
      then some (record { start = address - r.heap_base; size = size })
      else none

  -- The checks under the transaction: the entry is still published at the generation of the id.
  unfoldable pub remove_entry :
      EntryId → ℕ × ℕ → Option Meta → Result (Unit {0}) CloseError → Run (Result (Unit {0}) Error)
  remove_entry id at meta closes = do
    state ← read (λ m. m.state at.0 at.1)
    if not (state == entry_word id.generation published)
        then (do commit owner held; done (err stale))
        else elim meta [
          | none ↦ (do commit owner held; done (err stale))
          | some meta ↦ begin_mutation owner >>= closing_entry id at meta closes
        ]

  abbrev pub located_entry :
      EntryId
      → Option Meta
      → Result (Unit {0}) CloseError
      → Result (ℕ × ℕ) Error
      → Run (Result (Unit {0}) Error)
  located_entry id meta closes (ok at) = remove_entry id at meta closes
  located_entry id meta closes (err e) = do commit owner held; done (err e)
  located_entry id meta closes panicked = done panicked

  abbrev pub claimed :
      EntryId
      → Option Meta
      → Result (Unit {0}) CloseError
      → Result (Unit {0}) Error
      → Run (Result (Unit {0}) Error)
  claimed id meta closes (ok u) =
      read (λ m. entry r m id.slab id.entry) >>= located_entry id meta closes
  claimed id meta closes (err e) = done (err e)
  claimed id meta closes panicked = done panicked

  -- The offset of the id must be the one of the mapped layout.
  abbrev pub checked :
      EntryId
      → Mapped
      → Option Meta
      → Result (Unit {0}) CloseError
      → Result ℕ Error
      → Run (Result (Unit {0}) Error)
  checked id mapped meta closes (ok o) =
      if not (mapped.region == r.id) || not (mapped.offset == o)
      then done (err stale)
      else claim_transaction owner >>= claimed id meta closes
  checked id mapped meta closes (err e) = done (err e)
  checked id mapped meta closes panicked = done panicked

  -- `size` and `align` are the layout's, and `header_size` and `header_align` those of the header.
  unfoldable pub remove_in :
      ℕ
      → ℕ
      → EntryId
      → Mapped
      → ℕ
      → ℕ
      → ℕ
      → ℕ
      → Result (Unit {0}) CloseError
      → Run (Result (Unit {0}) Error)
  remove_in lower bound id mapped header_size header_align size align closes =
      if not (r.id == r.heap_id) || ltb size header_size || ltb align header_align
      then done (err stale)
      else read (λ m. offset r m id)
        >>= checked id mapped (meta_for lower bound mapped.address size) closes
