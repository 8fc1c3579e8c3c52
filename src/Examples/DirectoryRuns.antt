-- ===== src/Examples/DirectoryRuns.antt =====
-- A directory of src/dir.rs with one slab, in a region of 64 KiB.
use evering.Base.{true, ℕ, ◌≡◌, refl, true, false, none, some, [], ok, err, arith, update}
use evering.Steps.{run, crash}
use evering.Talc.Mutation
use evering.Directory.Memory.{
  clean, held, evidence, rolling_back, closing, remove_kind, entry_word, owner_word, Recovered,
  Meta, Memory, Region, pointer, offset_of, slab_at, busy, stale,
}
use evering.Directory.Lookup.{
  next_slab, slab, entry, first, scan, Slot, reserve, transition, EntryId, offset,
}
use evering.Directory.Grow.{create_in}
use evering.Directory.Transaction.{set_transaction, claim_transaction, put}
use evering.Directory.Create.{fill}
use evering.Directory.Settle.{quarantine}
use evering.Directory.Remove.{retire}
use evering.Directory.Creation.{Recovers}
use evering.Directory.CreateCrash.{create-Recovers}
use evering.Directory.RemoveCrash.{Clears, remove_recovers}
use evering.Directory.RemoveArms.{quarantine_held}
use evering.Directory.Lifetimes.{create_publishes}

abbrev region : Region
region = record {
  id = 7;
  start = 4096;
  size = 65536;
  heap_id = 7;
  heap_base = 8192;
  place = λ calls size align. some 2048;
  debug = true;
}

-- Participant 3 has claimed the transaction.
abbrev begun : Memory
begun = record {
  transaction = owner_word 3 held;
  pending_slab = 0;
  pending_entry = 0;
  pending_kind = 0;
  pending = record { start = 0; size = 0 };
  next = λ q. 0;
  state = λ q k. 0;
  offset = λ q k. 0;
  mutation = 0;
  calls = [];
  closed = λ a. false;
}

abbrev first_slot : Slot
first_slot = record { slab = 0; entry = 0; generation = 1; vacant = 0 }

quiet : transition region begun ≡ ok none
unfolding transition scan next_slab slab_at first
quiet = refl

abbrev first_at : ℕ × ℕ
first_at = (0, 0)

-- The participant dies with its evidence complete and the heap clean.
create-Recovers_example :
    Recovers region 5 3 begun first_at 1
      (crash 13 (create_in region 3 true 896 128 (ok tt)) (set_transaction clean begun))
unfolding reserve scan entry slab first
create-Recovers_example =
    create-Recovers region 5 3 896 128 13 (ok tt) begun first_slot first_at refl refl (omega arith)
      (λ q k. omega arith) (λ q k. refl) quiet refl refl refl

create_publishes_example :
    let (answer, m') = run (fill region 3 896 128 (ok tt) first_slot) begun in
    let id : ℕ → EntryId = λ g. record { region = 7; slab = 0; entry = 0; generation = g } in
    (answer ≡ ok (id 1))
    × (offset region m' (id 1) ≡ ok 6144)
    × (offset region m' (id 2) ≡ err stale)
    × (m'.transaction ≡ clean)
    × (m'.mutation ≡ 0)
unfolding entry slab offset_of
create_publishes_example =
    create_publishes region 3 896 128 2048 6144 2 begun first_slot first_at refl refl refl
      (omega arith) refl refl (λ e. absurd (omega (arith, e)))

abbrev first_id : EntryId
first_id = record { region = 7; slab = 0; entry = 0; generation = 1 }

abbrev block : Meta
block = record { start = 2048; size = 896 }

abbrev closed_memory : Memory
closed_memory = record begun {
  transaction = owner_word 3 evidence;
  pending_slab = 0;
  pending_entry = 0;
  pending_kind = remove_kind;
  pending = block;
  state = put begun.state first_at (entry_word 1 closing);
  mutation = Mutation.owner_word 3;
  closed = update begun.closed (pointer region block) true;
}

remove_recovers_example :
    Clears region 5 3 begun first_at 1 block []
      (crash 3 (retire region 3 first_id first_at block) closed_memory)
unfolding entry slab
remove_recovers_example =
    remove_recovers region 5 3 3 begun closed_memory first_at first_id block refl refl (omega arith)
      (omega arith) (omega arith) refl quiet refl

-- The same region in a release build.
abbrev release_region : Region
release_region = record region { debug = false }

quarantine_held_example :
    let (answer, m') =
      run (quarantine release_region 5 (owner_word 3 evidence) first_at) closed_memory in
    (answer ≡ ok Recovered.quarantined)
    × (m'.transaction ≡ owner_word 5 rolling_back)
    × (run (claim_transaction 9) m' ≡ (err (busy 5), m'))
quarantine_held_example =
    quarantine_held release_region 5 3 9 closed_memory first_at refl (omega arith) (omega arith)
      refl
