-- ===== src/Directory/RemoveCrash.antt =====
-- src/dir.rs: `remove_in` from the closed header on, and `recover` after a death.
use evering.Base.{
  update_self, update, ℕ, ◌%◌, ◌^◌, ◌<◌, ◌≡◌, ◌⊎◌, inl, inr, refl, sym, ap, ap₂, ◌∙◌, true, false,
  ◌==◌, none, List, ◌∷◌, ok, arith, update, subst, and_then,
}
use evering.Steps.{run, Throughout, Throughout-crash, crash}
use evering.Talc.Mutation.{mutation_clean, mutation_poisoned}
use evering.Talc.Mutation
use evering.Directory.Memory.{
  clean, held, evidence, vacant, closing, removing, released_state, quarantined_state, remove_kind,
  grow_kind, entry_word, state_of, generation_of, owner_word, Meta, Call, Memory, Region, pointer,
  deallocated,
}
use evering.Directory.Lookup.{
  u32_max, entry, scan, in_transition, without_slab, transition, EntryId,
}
use evering.Directory.Transaction.{
  set_transaction, clear_pending, put, set_state, set_mutation, commit_mutation, called,
  deallocate_during,
}
use evering.Directory.Settle.{
  Operation, operation, settle, close_unfinished, release_unfinished, vacate_unfinished, removal,
}
use evering.Directory.Recover.{phase_left, recover}
use evering.Directory.Remove.{retire}
use evering.Directory.Enter.{recover_idle, evidence_settled}
use evering.Directory.Arms.{after_owned, put_at}
use evering.Directory.RemoveArms.{settle_closed, settle_released, settle_vacated, settle_removing}
use evering.Directory.Crash.{put_twice, put_keep, next_slab_same, entry_same}
use evering.Directory.Scan.{scan_none}
use evering.Directory.CreateCrash.{transition_none}
use evering.Directory.Throughout.{Throughout-commit}

-- What a removal leaves, after recovery: the entry is vacant at its generation and the block is given
-- back, once; or the entry is quarantined and the heap poisoned.
pub data Gone (m0 : Memory) (at : ℕ × ℕ) (generation : ℕ) (meta : Meta) (calls : List Call)
    (m : Memory) : Type 0 where
  freed :
      m.state ≡ put m0.state at (entry_word generation vacant)
      → m.calls ≡ deallocated meta ∷ calls
      → Gone m0 at generation meta calls m
  lost :
      m.state ≡ put m0.state at (entry_word generation quarantined_state)
      → m.mutation ≡ mutation_poisoned
      → Gone m0 at generation meta calls m

pub record Clears (r : Region) (live owner : ℕ) (m0 : Memory) (at : ℕ × ℕ) (generation : ℕ)
    (meta : Meta) (calls : List Call) (m : Memory) : Type 0 where
  pub ends : ((run (recover r live owner) m).1).transaction ≡ clean
  pub fate : Gone m0 at generation meta calls (run (recover r live owner) m).1

module _ (r : Region) (live owner : ℕ) (m0 : Memory) (at : ℕ × ℕ) (id : EntryId) (meta : Meta)
    (calls : List Call) (same_region : r.id ≡ r.heap_id) (on : r.debug ≡ true)
    (small : owner < 2 ^ 8) (short : id.slab < 2 ^ 32) (young : id.generation < 2 ^ 61)
    (here : entry r m0 id.slab id.entry ≡ ok at) (quiet : transition r m0 ≡ ok none) where
  abbrev g : ℕ
  g = id.generation

  abbrev Good : Memory → Type 0
  Good = Clears r live owner m0 at g meta calls

  good :
      (m m' : Memory)
      → (run (recover r live owner) m).1 ≡ m'
      → m'.transaction ≡ clean
      → Gone m0 at g meta calls m'
      → Good m
  good m m' e c f = record {
    ends = ap (λ x. x.transaction) e ∙ c;
    fate = subst (Gone m0 at g meta calls) (sym e) f;
  }

  record Form (phase s : ℕ) (m : Memory) : Type 0 where
    pub word : m.transaction ≡ owner_word owner phase
    pub entries : m.state ≡ put m0.state at (entry_word g s)
    pub chain : m.next ≡ m0.next
    pub slab_kept : m.pending_slab ≡ id.slab
    pub entry_kept : m.pending_entry ≡ id.entry
    pub kind_kept : m.pending_kind ≡ remove_kind
    pub meta_kept : m.pending ≡ meta

  moved :
      {p s p' s' : ℕ} {m n : Memory}
      → Form p s m
      → n.transaction ≡ owner_word owner p'
      → n.state ≡ put m0.state at (entry_word g s')
      → n.next ≡ m.next
      → n.pending_slab ≡ m.pending_slab
      → n.pending_entry ≡ m.pending_entry
      → n.pending_kind ≡ m.pending_kind
      → n.pending ≡ m.pending
      → Form p' s' n
  moved f w e e1 e2 e3 e4 e5 = record {
    word = w;
    entries = e;
    chain = e1 ∙ f.chain;
    slab_kept = e2 ∙ f.slab_kept;
    entry_kept = e3 ∙ f.entry_kept;
    kind_kept = e4 ∙ f.kind_kept;
    meta_kept = e5 ∙ f.meta_kept;
  }

  arm :
      (s : ℕ) (o : Operation) (m : Memory)
      → s < 2 ^ 3
      → Form evidence s m
      → operation remove_kind s evidence ≡ o
      → run (recover r live owner) m
        ≡ run (settle r live o owner (owner_word owner evidence) evidence at g) m
  arm s o m low f which =
      let w : m.state at.0 at.1 ≡ entry_word g s =
        ap (λ z. z at.0 at.1) f.entries ∙ put_at m0.state at (entry_word g s) in
      evidence_settled r live owner m same_region small id.slab id.entry g at o f.word
        (ap (λ x. x == grow_kind) f.kind_kept)
        (ap (λ x. x % 2 ^ 32) f.slab_kept ∙ omega (arith, short)) f.entry_kept
        (entry_same r m0 m f.chain id.slab id.entry ∙ here)
        (ap₂ (λ x y. operation x y evidence) f.kind_kept (ap state_of w ∙ omega (arith, young, low))
          ∙ which)
        (ap generation_of w ∙ omega (arith, young, low))

  over :
      (m : Memory) (s v : ℕ)
      → m.state ≡ put m0.state at (entry_word g s)
      → put m.state at v ≡ put m0.state at v
  over m s v e = ap (λ f. put f at v) e ∙ put_twice m0.state at (entry_word g s) v

  -- The header is closed, and the entry still says so.
  at_closing :
      (m : Memory)
      → Form evidence closing m
      → m.mutation ≡ Mutation.owner_word owner
      → m.closed (pointer r m.pending) ≡ true
      → m.calls ≡ calls
      → Good m
  unfolding operation
  at_closing m f mine shut c =
      good m _
        (ap (λ z. z.1) (arm closing close_unfinished m (omega arith) f refl)
          ∙ settle_closed r live owner (owner_word owner evidence) m at g f.word mine shut)
        refl
        (freed (put_twice m.state at _ _ ∙ over m closing _ f.entries)
          (ap₂ (λ x y. deallocated x ∷ y) f.meta_kept c))

  -- The heap is being changed: it is poisoned, and the entry quarantined.
  at_removing :
      (m : Memory) → Form evidence removing m → m.mutation ≡ Mutation.owner_word owner → Good m
  unfolding operation
  at_removing m f mine =
      let w : m.state at.0 at.1 ≡ entry_word g removing =
        ap (λ z. z at.0 at.1) f.entries ∙ put_at m0.state at (entry_word g removing) in
      good m _
        (ap (λ z. z.1) (arm removing removal m (omega arith) f refl)
          ∙ settle_removing r live owner (owner_word owner evidence) m at g f.word small mine on
              refl)
        refl
        (lost
          (over m removing _ f.entries
            ∙ ap (λ x. put m0.state at (entry_word x quarantined_state))
                (ap generation_of w ∙ omega (arith, young)))
          (after_owned owner m.mutation mine))

  at_released :
      (m : Memory)
      → Form evidence released_state m
      → (m.mutation ≡ Mutation.owner_word owner) ⊎ (m.mutation ≡ mutation_clean)
      → m.calls ≡ deallocated meta ∷ calls
      → Good m
  unfolding operation
  at_released m f free c =
      good m _
        (ap (λ z. z.1) (arm released_state release_unfinished m (omega arith) f refl)
          ∙ settle_released r live owner (owner_word owner evidence) m at g f.word free)
        refl (freed (over m released_state _ f.entries) c)

  at_vacant :
      (m : Memory)
      → Form evidence vacant m
      → m.mutation ≡ mutation_clean
      → m.calls ≡ deallocated meta ∷ calls
      → Good m
  unfolding operation
  at_vacant m f idle c =
      good m _
        (ap (λ z. z.1) (arm vacant vacate_unfinished m (omega arith) f refl)
          ∙ settle_vacated r live owner (owner_word owner evidence) m at g f.word idle)
        refl (freed f.entries c)

  at_held : (m : Memory) → Form held vacant m → m.calls ≡ deallocated meta ∷ calls → Good m
  unfolding transition
  at_held m f c =
      good m _
        (recover_idle r live owner m same_region small f.word (
          ap (λ x. and_then x without_slab)
            (scan_none r m0 m in_transition in_transition (next_slab_same r m0 m f.chain) still
              u32_max 0 0 (transition_none (scan in_transition r m0 u32_max 0 0) quiet))))
        refl (freed f.entries c)
    where
      still : (q k : ℕ) → in_transition (m0.state q k) ≡ false → in_transition (m.state q k) ≡ false
      still q k h =
          ap (λ z. in_transition (z q k)) f.entries
          ∙ put_keep m0.state at (entry_word g vacant) q k in_transition false
              (ground (arith, young)) h

  at_end : (m : Memory) → m.transaction ≡ clean → Gone m0 at g meta calls m → Good m
  unfolding recover phase_left
  at_end m e f = good m m (ground (arith, same_region, e)) e f

  retire-Good :
      (m : Memory)
      → Form evidence closing m
      → m.mutation ≡ Mutation.owner_word owner
      → m.closed (pointer r m.pending) ≡ true
      → m.calls ≡ calls
      → Throughout Good (retire r owner id at meta) m
  unfolding retire deallocate_during commit_mutation clear_pending Mutation.commit
  retire-Good m f mine shut c =
      let m1 = set_state at (entry_word g removing) m in
      let e1 : m1.state ≡ put m0.state at (entry_word g removing) =
        over m closing (entry_word g removing) f.entries in
      let f1 : Form evidence removing m1 = moved f f.word e1 refl refl refl refl refl in
      let m2 = called (deallocated meta) m1 in
      let m3 = set_state at (entry_word g released_state) m2 in
      let e3 : m3.state ≡ put m0.state at (entry_word g released_state) =
        over m1 removing (entry_word g released_state) e1 in
      let m4 = set_mutation mutation_clean m3 in
      let m5 = set_state at (entry_word g vacant) m4 in
      let e5 : m5.state ≡ put m0.state at (entry_word g vacant) =
        over m3 released_state (entry_word g vacant) e3 in
      let m6 = set_transaction (owner_word owner held) m5 in
      let d = ap (λ x. deallocated meta ∷ x) c in
      (
        at_closing m f mine shut c,
        (
          at_removing m1 f1 mine,
          (
            at_removing m2 (moved f f.word e1 refl refl refl refl refl) mine,
            (
              at_released m3 (moved f f.word e3 refl refl refl refl refl) (inl mine) d,
              (
                at_released m4 (moved f f.word e3 refl refl refl refl refl) (inr refl) d,
                (
                  at_vacant m5 (moved f f.word e5 refl refl refl refl refl) refl d,
                  Throughout-commit Good owner held (ok tt) m6
                      (at_held m6 (moved f refl e5 refl refl refl refl refl) d) refl
                      (at_end (set_transaction clean m6) refl (freed e5 d)),
                ),
              ),
            ),
          ),
        ),
      )

-- When a removal has closed the header of an entry and said so, with its evidence, and its
-- participant, below 256, holds the transaction and the heap: after whichever further access it
-- dies, the recovery by any other ends the transaction. The entry is then vacant at its generation
-- and its block given back, once; or it is quarantined and the heap poisoned. All other entries
-- are as they were before. The generation fits, no entry was in transition before, and debug
-- assertions are on.
pub remove_recovers :
    (r : Region) (live owner n : ℕ) (m0 m : Memory) (at : ℕ × ℕ) (id : EntryId) (meta : Meta)
    → r.id ≡ r.heap_id
    → r.debug ≡ true
    → owner < 2 ^ 8
    → id.slab < 2 ^ 32
    → id.generation < 2 ^ 61
    → entry r m0 id.slab id.entry ≡ ok at
    → transition r m0 ≡ ok none
    → m ≡ record m0 {
      transaction = owner_word owner evidence;
      pending_slab = id.slab;
      pending_entry = id.entry;
      pending_kind = remove_kind;
      pending = meta;
      state = put m0.state at (entry_word id.generation closing);
      mutation = Mutation.owner_word owner;
      closed = update m0.closed (pointer r meta) true;
    }
    → Clears r live owner m0 at id.generation meta m0.calls (crash n (retire r owner id at meta) m)
remove_recovers r live owner n m0 m at id meta region on small short young here quiet e =
    Throughout-crash _ (retire r owner id at meta) m
      (subst
        (Throughout (Clears r live owner m0 at id.generation meta m0.calls)
          (retire r owner id at meta))
        (sym e)
        (retire-Good r live owner m0 at id meta m0.calls region on small short young here quiet _
          (record {
            word = refl;
            entries = refl;
            chain = refl;
            slab_kept = refl;
            entry_kept = refl;
            kind_kept = refl;
            meta_kept = refl;
          })
          refl (update_self m0.closed (pointer r meta) true) refl))
      n
