-- ===== src/Directory/CreateRuns.antt =====
-- src/dir.rs: every access of a creation leaves memory that recovery puts right.
use evering.Base.{ℕ, ◌+◌, ◌≡◌, refl, ap, ◌∙◌, ◌∷◌, Result, ok, err, panicked, arith}
use evering.Steps.{Throughout}
use evering.Talc.Mutation.{MutationError, mutation_clean, mutation_poisoned}
use evering.Talc.Mutation
use evering.Directory.Memory.{
  clean, held, evidence, pending_state, published, create_kind, entry_word, state_of, generation_of,
  owner_word, ProjectionError, Error, Meta, Memory, Region, allocated, deallocated,
}
use evering.Directory.Lookup.{Slot, slot_of}
use evering.Directory.Transaction.{
  set_transaction, clear_pending, put, set_state, set_offset, set_mutation, commit_mutation, called,
  deallocate_during,
}
use evering.Directory.Create.{give_up, withdraw, publish}
use evering.Directory.Settle.{unknown, operation}
use evering.Directory.Crash.{Target, word_state, free, put_same, put_twice, Shape}
use evering.Directory.Creation.{
  untouched, given_back, created, Recovers, Good-clean, Proof, idle_created, idle_given_back,
  idle_untouched, proven_clean, proven_held, proven_unknown,
}
use evering.Directory.Throughout.{Throughout-begin_clean, Throughout-commit}

module _ {r : Region} {live owner index place i : ℕ} {m0 : Memory}
    (t : Target r live owner index place i m0) where
  abbrev at : ℕ × ℕ
  at = (place, i)

  abbrev before : ℕ
  before = m0.state place i

  abbrev generation : ℕ
  generation = generation_of before + 1

  abbrev slot : Slot
  slot = slot_of m0 (index, place, i)

  abbrev reserved_word : ℕ
  reserved_word = entry_word generation pending_state

  abbrev Good : Memory → Type 0
  Good = Recovers r live owner m0 at generation

  -- The transaction is held, and the entry is reserved.
  pub record Held (m : Memory) : Type 0 where
    pub word : m.transaction ≡ owner_word owner held
    pub entries : m.state ≡ put m0.state at reserved_word
    pub chain : m.next ≡ m0.next

  pub Held-of :
      {m n : Memory}
      → Held m
      → n.transaction ≡ m.transaction
      → n.state ≡ m.state
      → n.next ≡ m.next
      → Held n
  Held-of h e1 e2 e3 = record { word = e1 ∙ h.word; entries = e2 ∙ h.entries; chain = e3 ∙ h.chain }

  pub form : (m : Memory) → Held m → Shape t held reserved_word m
  form m h = record { word = h.word; entries = h.entries; chain = h.chain }

  restored :
      (m : Memory)
      → m.state ≡ put m0.state at reserved_word
      → put m.state at before ≡ put m0.state at before
  restored m e = ap (λ f. put f at before) e ∙ put_twice m0.state at reserved_word before

  pub same_state : put m0.state at before ≡ m0.state
  same_state = put_same m0.state at before refl

  -- The entry goes back to the word it had.
  pub give_up_untouched :
      (e : Error) (m : Memory)
      → Held m
      → m.calls ≡ m0.calls
      → Good m
      → Throughout Good (give_up r owner at before e) m
  give_up_untouched e m h c now = (
    now,
    Throughout-commit Good owner held (err e) (set_state at before m)
        (idle_untouched t (set_state at before m)
          (record { word = h.word; entries = restored m h.entries; chain = h.chain }) c)
        h.word
        (Good-clean t (set_transaction clean (set_state at before m)) refl
          (untouched (restored m h.entries ∙ same_state) c)),
  )

  pub give_up_given_back :
      (e : Error) (m : Memory) (meta : Meta)
      → Held m
      → m.calls ≡ deallocated meta ∷ allocated meta ∷ m0.calls
      → Good m
      → Throughout Good (give_up r owner at before e) m
  give_up_given_back e m meta h c now = (
    now,
    Throughout-commit Good owner held (err e) (set_state at before m)
        (idle_given_back t (set_state at before m) meta
          (record { word = h.word; entries = restored m h.entries; chain = h.chain }) c)
        h.word
        (Good-clean t (set_transaction clean (set_state at before m)) refl
          (given_back meta (restored m h.entries ∙ same_state) c)),
  )

  -- What the evidence says, and the heap is clean.
  pub record Proven (meta : Meta) (m : Memory) : Type 0 where
    pub word : m.transaction ≡ owner_word owner evidence
    pub entries : m.state ≡ put m0.state at reserved_word
    pub chain : m.next ≡ m0.next
    pub slab_kept : m.pending_slab ≡ index
    pub entry_kept : m.pending_entry ≡ i
    pub kind_kept : m.pending_kind ≡ create_kind
    pub meta_kept : m.pending ≡ meta
    pub block : m.calls ≡ allocated meta ∷ m0.calls

  proof :
      (w : ℕ) (m n : Memory) (meta : Meta)
      → Proven meta m
      → n.transaction ≡ m.transaction
      → n.state ≡ put m.state at w
      → n.next ≡ m.next
      → n.pending_slab ≡ m.pending_slab
      → n.pending_entry ≡ m.pending_entry
      → n.pending_kind ≡ m.pending_kind
      → Proof t w n
  proof w m n meta p e1 e2 e3 e4 e5 e6 = record {
    form = record {
      word = e1 ∙ p.word;
      entries = e2 ∙ ap (λ f. put f at w) p.entries ∙ put_twice m0.state at reserved_word w;
      chain = e3 ∙ p.chain;
    };
    slab_kept = e4 ∙ p.slab_kept;
    entry_kept = e5 ∙ p.entry_kept;
    kind_kept = e6 ∙ p.kind_kept;
  }

  Proof-now : (m : Memory) (meta : Meta) → Proven meta m → Proof t reserved_word m
  Proof-now m meta p = record {
    form = record { word = p.word; entries = p.entries; chain = p.chain };
    slab_kept = p.slab_kept;
    entry_kept = p.entry_kept;
    kind_kept = p.kind_kept;
  }

  published_unknown :
      operation create_kind (state_of (entry_word generation published)) evidence ≡ unknown
  unfolding operation
  published_unknown =
      ap (λ x. operation create_kind x evidence) (word_state t published (omega arith))

  vacant_unknown : operation create_kind (state_of before) evidence ≡ unknown
  unfolding operation
  vacant_unknown = ap (λ x. operation create_kind x evidence) (free t).0

  publish-Good :
      (o : ℕ) (meta : Meta) (m : Memory)
      → Proven meta m
      → m.mutation ≡ mutation_clean
      → Throughout Good (publish r owner slot at o meta (ok tt)) m
  unfolding clear_pending
  publish-Good o meta m p idle =
      let w = entry_word generation published in
      let n = set_state at w (set_offset at o m) in
      let entries : n.state ≡ put m0.state at w =
        ap (λ f. put f at w) p.entries ∙ put_twice m0.state at reserved_word w in
      (
        proven_clean t m meta (Proof-now m meta p) idle p.meta_kept p.block,
        (
          proven_clean t (set_offset at o m) meta
              (record {
                form = record { word = p.word; entries = p.entries; chain = p.chain };
                slab_kept = p.slab_kept;
                entry_kept = p.entry_kept;
                kind_kept = p.kind_kept;
              })
              idle p.meta_kept p.block,
          (
            proven_unknown t w n (proof w m n meta p refl refl refl refl refl refl)
                published_unknown,
            Throughout-commit Good owner held _ (set_transaction (owner_word owner held) n)
                (idle_created t (set_transaction (owner_word owner held) n) meta
                  (record { word = refl; entries = entries; chain = p.chain }) p.block)
                refl (Good-clean t (set_transaction clean n) refl (created meta entries p.block)),
          ),
        ),
      )

  -- `admit_at` failed: with the heap held again, the block is given back.
  withdraw-Good :
      (e : ProjectionError) (meta : Meta) (m : Memory)
      → Proven meta m
      → m.mutation ≡ Mutation.owner_word owner
      → Throughout Good (withdraw r owner slot at meta e (ok owner)) m
  unfolding clear_pending commit_mutation deallocate_during Mutation.commit
  withdraw-Good e meta m p mine =
      let d = called (deallocated meta) m in
      let n = set_state at before d in
      let h = set_transaction (owner_word owner held) n in
      let u = set_mutation mutation_clean h in
      let entries : n.state ≡ put m0.state at before = restored m p.entries in
      let calls : n.calls ≡ deallocated meta ∷ allocated meta ∷ m0.calls =
        ap (λ c. deallocated meta ∷ c) p.block in
      (
        proven_held t m (Proof-now m meta p) mine,
        (
          proven_held t d
              (record {
                form = record { word = p.word; entries = p.entries; chain = p.chain };
                slab_kept = p.slab_kept;
                entry_kept = p.entry_kept;
                kind_kept = p.kind_kept;
              })
              mine,
          (
            proven_unknown t before n (proof before m n meta p refl refl refl refl refl refl)
                vacant_unknown,
            (
              idle_given_back t h meta (record { word = refl; entries = entries; chain = p.chain })
                  calls,
              Throughout-commit Good owner held _ u
                  (idle_given_back t u meta
                    (record { word = refl; entries = entries; chain = p.chain }) calls)
                  refl
                  (Good-clean t (set_transaction clean u) refl
                    (given_back meta (entries ∙ same_state) calls)),
            ),
          ),
        ),
      )

  pub publish_any :
      (o : ℕ) (meta : Meta) (admitted : Result (Unit {0}) ProjectionError) (m : Memory)
      → Proven meta m
      → m.mutation ≡ mutation_clean
      → Throughout Good (publish r owner slot at o meta admitted) m
  publish_any o meta (ok u) m p idle = publish-Good o meta m p idle
  publish_any o meta panicked m p idle =
      proven_clean t m meta (Proof-now m meta p) idle p.meta_kept p.block
  publish_any o meta (err e) m p idle =
      Throughout-begin_clean Good owner (withdraw r owner slot at meta e) m
        (proven_clean t m meta (Proof-now m meta p) idle p.meta_kept p.block) idle
        (withdraw-Good e meta (set_mutation (Mutation.owner_word owner) m)
          (record {
            word = p.word;
            entries = p.entries;
            chain = p.chain;
            slab_kept = p.slab_kept;
            entry_kept = p.entry_kept;
            kind_kept = p.kind_kept;
            meta_kept = p.meta_kept;
            block = p.block;
          })
          refl)
