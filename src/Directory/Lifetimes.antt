-- ===== src/Directory/Lifetimes.antt =====
-- src/dir.rs: what a creation publishes, and whose identifiers are stale.
use evering.Base.{
  ℕ, ◌+◌, ◌^◌, ◌<◌, ◌≡◌, ◌≢◌, refl, sym, ap, ap₂, ◌∙◌, Bool, true, false, not, ◌||◌, ◌==◌,
  if◌then◌else◌, some, ◌∷◌, Result, ok, err, panicked, arith, update, eq→==, and_then, ne→==,
}
use evering.Steps.{run, run_then, ◌>>◌, done}
use evering.Talc.Mutation.{mutation_clean, claim}
use evering.Talc.Mutation
use evering.Directory.Memory.{
  clean, held, pending_state, published, create_kind, entry_word, state_of, generation_of,
  owner_word, Error, Meta, Memory, Region, pointer, offset_of, stale, allocated,
}
use evering.Directory.Lookup.{slab, entry, Slot, EntryId, offset, resolve}
use evering.Directory.Transaction.{
  persist, clear_pending, commit, put, set_state, set_closed, set_mutation, begin_mutation,
  commit_mutation, called, allocate_during,
}
use evering.Directory.Create.{prove, place_block, allocate, build, fill}
use evering.Directory.Arms.{put_at, commit_lem}
use evering.Directory.Crash.{entry_same}

-- The memory after a creation that succeeded.
abbrev published_memory : Region → Slot → ℕ × ℕ → Meta → ℕ → Memory → Memory
published_memory r slot at meta o m = record m {
  transaction = clean;
  pending_slab = slot.slab;
  pending_entry = slot.entry;
  pending_kind = create_kind;
  pending = meta;
  state =
      put (put m.state at (entry_word slot.generation pending_state)) at
        (entry_word slot.generation published);
  offset = put m.offset at o;
  mutation = mutation_clean;
  calls = allocated meta ∷ m.calls;
  closed = update m.closed (pointer r meta) false;
}

begin_lem :
    (owner : ℕ) (m : Memory)
    → m.mutation ≡ mutation_clean
    → run (begin_mutation owner) m ≡ (ok owner, set_mutation (Mutation.owner_word owner) m)
unfolding begin_mutation claim
begin_lem owner m e = ap (λ x. ((claim owner x).0, set_mutation (claim owner x).1 m)) e

abbrev block : ℕ → ℕ → Meta
block start size = record { start = start; size = size }

allocate_lem :
    (r : Region) (size align start : ℕ) (m : Memory)
    → r.place m.calls size align ≡ some start
    → run (allocate_during r size align) m
      ≡ (ok (block start size), called (allocated (block start size)) m)
unfolding allocate_during
allocate_lem r size align start m e = ground (arith, e)

module _ (r : Region) (owner size align start o : ℕ) (m : Memory) (slot : Slot) (at : ℕ × ℕ)
    (taken : m.transaction ≡ owner_word owner held) (idle : m.mutation ≡ mutation_clean)
    (here : entry r m slot.slab slot.entry ≡ ok at)
    (granted : r.place m.calls size align ≡ some start)
    (inside : offset_of r (r.heap_base + start) size ≡ ok o) where
  abbrev meta : Meta
  meta = block start size

  abbrev id : EntryId
  id = record { region = r.id; slab = slot.slab; entry = slot.entry; generation = slot.generation }

  fill_runs :
      run (fill r owner size align (ok tt) slot) m ≡ (ok id, published_memory r slot at meta o m)
  unfolding fill build persist commit_mutation clear_pending Mutation.commit
  fill_runs =
      let m1 = set_state at (entry_word slot.generation pending_state) m in
      let m2 = set_mutation (Mutation.owner_word owner) m1 in
      let m3 = set_closed (pointer r meta) false (called (allocated meta) m2) in
      ap
        (λ x.
          run
            (elim x [
              | ok at ↦ build r owner slot at size align (ok tt)
              | err e ↦ commit owner held >> done (err e)
              | panicked ↦ done panicked
            ])
            m)
        here
      ∙ run_then (begin_mutation owner) (allocate r owner slot at size align (ok tt)) m1
          (begin_lem owner m1 idle)
      ∙ run_then (allocate_during r size align) (place_block r owner slot at size (ok tt)) m2
          (allocate_lem r size align start m2 granted)
      ∙ ap (λ x. run (prove r owner slot at meta (ok tt) x) m3) inside
      ∙ run_then (commit owner held) _ _ (commit_lem owner held _ refl)

resolve_lem :
    (m : Memory) (g age o : ℕ) (at : ℕ × ℕ)
    → g < 2 ^ 61
    → m.state at.0 at.1 ≡ entry_word g published
    → m.offset at.0 at.1 ≡ o
    → resolve m age at ≡ (if g == age then ok o else err stale)
resolve_lem m g age o at low word kept =
    ap₂
      (λ w x.
        if not (state_of w == published) || not (generation_of w == age) then err stale else ok x)
      word kept
    ∙ rw (published_state, published_age) (flip (g == age))
  where
    published_state : state_of (entry_word g published) ≡ published
    published_state = omega (arith, low)

    published_age : generation_of (entry_word g published) ≡ g
    published_age = omega (arith, low)

    flip :
        (b : Bool)
        → ◌≡◌ {A = Result ℕ Error}
            (if not b then err stale else ok o)
            (if b then ok o else err stale)
    flip true = refl
    flip false = refl

offset_lem :
    (r : Region) (m : Memory) (slab i g age o : ℕ) (at : ℕ × ℕ)
    → entry r m slab i ≡ ok at
    → g < 2 ^ 61
    → m.state at.0 at.1 ≡ entry_word g published
    → m.offset at.0 at.1 ≡ o
    → offset r m (record { region = r.id; slab = slab; entry = i; generation = age })
      ≡ (if g == age then ok o else err stale)
unfolding offset
offset_lem r m slab i g age o at here low word kept =
    rw (eq→== r.id r.id refl)
      (ap (λ x. and_then x (resolve m age)) here ∙ resolve_lem m g age o at low word kept)

-- A creation by the holder of the transaction, in a slot whose entry is `at` and whose generation
-- fits, succeeds when nobody holds the heap, the allocator grants a block, the block lies in the
-- region and `admit_at` admits it. The identifier that it answers leads to the offset of the
-- block, an identifier of the same entry of any other generation is stale, and neither the
-- transaction nor the heap is held.
pub create_publishes :
    (r : Region) (owner size align start o age : ℕ) (m : Memory) (slot : Slot) (at : ℕ × ℕ)
    → m.transaction ≡ owner_word owner held
    → m.mutation ≡ mutation_clean
    → entry r m slot.slab slot.entry ≡ ok at
    → slot.generation < 2 ^ 61
    → r.place m.calls size align ≡ some start
    → offset_of r (r.heap_base + start) size ≡ ok o
    → age ≢ slot.generation
    → let (answer, m') = run (fill r owner size align (ok tt) slot) m in
      let id : ℕ → EntryId =
        λ g. record { region = r.id; slab = slot.slab; entry = slot.entry; generation = g } in
      (answer ≡ ok (id slot.generation))
      × (offset r m' (id slot.generation) ≡ ok o)
      × (offset r m' (id age) ≡ err stale)
      × (m'.transaction ≡ clean)
      × (m'.mutation ≡ mutation_clean)
create_publishes r owner size align start o age m slot at taken idle here low granted inside old =
    let end = published_memory r slot at (block start size) o m in
    let same = fill_runs r owner size align start o m slot at taken idle here granted inside in
    let there = entry_same r m end refl slot.slab slot.entry ∙ here in
    let word =
      put_at (put m.state at (entry_word slot.generation pending_state)) at
        (entry_word slot.generation published) in
    let found = λ (g : ℕ).
      offset_lem r end slot.slab slot.entry slot.generation g o at there low word
        (put_at m.offset at o) in
    rw (same) (
      refl,
      found slot.generation ∙ ap choice (eq→== slot.generation slot.generation refl),
      found age ∙ ap choice (ne→== slot.generation age (λ e. old (sym e))),
      refl,
      refl,
    )
  where
    choice : Bool → Result ℕ Error
    choice b = if b then ok o else err stale
