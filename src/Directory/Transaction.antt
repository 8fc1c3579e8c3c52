-- ===== src/Directory/Transaction.antt =====
-- src/dir.rs: the transaction word of the directory, with the evidence that it guards, and the calls
-- that transactions make to the heap of src/talc.rs.
use evering.Base.{
  ℕ, ◌-◌, ◌/◌, ◌%◌, ◌^◌, Bool, ◌&&◌, ◌==◌, if◌then◌else◌, Option, none, some, ◌∷◌, Result, ok, err,
  update,
}
use evering.Steps.{Op, ◌>>=◌, ◌>>◌, write, done, step}
use evering.Talc.Mutation.{MutationError, claim}
use evering.Talc.Mutation
use evering.Directory.Memory.{
  clean, held, evidence, rolling_back, owner_word, Error, Meta, Call, Memory, Region, busy,
  allocated, deallocated,
}

abbrev pub Run : Type 0 → Type 0
Run A = Op Memory A

abbrev pub set_transaction : ℕ → Memory → Memory
set_transaction word m = record m { transaction = word }

-- compare_exchange on the transaction word: the word found
abbrev pub exchange : ℕ → ℕ → Run ℕ
exchange expected new =
    step (λ m. if m.transaction == expected then set_transaction new m else m)
      (λ m. done m.transaction)

-- Directory::claim
unfoldable pub claim_transaction : ℕ → Run (Result (Unit {0}) Error)
claim_transaction owner = do
  word ← exchange clean (owner_word owner held)
  done (if word == clean then ok tt else err (busy ((word / 2 ^ 2 - 1) % 2 ^ 8)))

-- Transaction::persist
unfoldable pub persist : ℕ → ℕ → ℕ → Meta → ℕ → Run (Unit {0})
persist owner slab entry meta kind = do
  write (λ m. record m { pending_slab = slab })
  write (λ m. record m { pending_entry = entry })
  write (λ m. record m { pending_kind = kind })
  write (λ m. record m { pending = meta })
  write (set_transaction (owner_word owner evidence))

-- Transaction::clear_pending
unfoldable pub clear_pending : ℕ → Run (Unit {0})
clear_pending owner = write (set_transaction (owner_word owner held))

-- Transaction::commit, in the phase that the transaction is in
unfoldable pub commit : ℕ → ℕ → Run Bool
commit owner phase = do
  word ← exchange (owner_word owner phase) clean
  done (word == owner_word owner phase)

-- the drop of a transaction
unfoldable pub drop : ℕ → ℕ → Run (Unit {0})
drop owner phase =
    if phase == evidence
    then exchange (owner_word owner evidence) (owner_word owner rolling_back) >> done tt
    else done tt

-- The words of all slabs, with one entry's changed.
unfoldable pub put : (ℕ → ℕ → ℕ) → ℕ × ℕ → ℕ → ℕ → ℕ → ℕ
put f at word q k = if (q == at.0) && (k == at.1) then word else f q k

abbrev pub set_state : ℕ × ℕ → ℕ → Memory → Memory
set_state at word m = record m { state = put m.state at word }

abbrev pub set_offset : ℕ × ℕ → ℕ → Memory → Memory
set_offset at o m = record m { offset = put m.offset at o }

abbrev pub set_closed : ℕ → Bool → Memory → Memory
set_closed address b m = record m { closed = update m.closed address b }

abbrev pub set_mutation : ℕ → Memory → Memory
set_mutation word m = record m { mutation = word }

-- MapTalc::begin_mutation, and the commit of what it answers
unfoldable pub begin_mutation : ℕ → Run (Result ℕ MutationError)
begin_mutation owner =
    step (λ m. set_mutation (claim owner m.mutation).1 m) (λ m. done (claim owner m.mutation).0)

unfoldable pub commit_mutation : Run (Unit {0})
commit_mutation = write (λ m. set_mutation (Mutation.commit m.mutation) m)

-- the drop of a guard that was not committed
unfoldable pub drop_mutation : Run (Unit {0})
drop_mutation = write (λ m. set_mutation (Mutation.drop m.mutation) m)

abbrev pub called : Call → Memory → Memory
called c m = record m { calls = c ∷ m.calls }

abbrev pub allocation : Region → ℕ → ℕ → Memory → Option Meta
allocation r size align m = elim (r.place m.calls size align) [
  | none ↦ none
  | some start ↦ some (record { start = start; size = size })
]

-- MapTalc::allocate_during and deallocate_during
unfoldable pub allocate_during : Region → ℕ → ℕ → Run (Result Meta MutationError)
allocate_during r size align =
    step
      (λ m. elim (allocation r size align m) [ none ↦ m | some meta ↦ called (allocated meta) m ])
      (λ m. elim (allocation r size align m) [
        | none ↦ done (err MutationError.exhausted)
        | some meta ↦ done (ok meta)
      ])

unfoldable pub deallocate_during : Meta → Run (Unit {0})
deallocate_during meta = write (called (deallocated meta))
