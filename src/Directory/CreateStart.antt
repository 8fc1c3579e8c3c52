-- ===== src/Directory/CreateStart.antt =====
-- src/dir.rs: the accesses of a creation up to its evidence leave memory that recovery puts right.
use evering.Base.{ℕ, ◌+◌, ◌≡◌, refl, sym, ap, false, ◌∷◌, Result, ok, err, panicked}
use evering.Steps.{Throughout}
use evering.Talc.Mutation.{MutationError, mutation_clean, mutation_poisoned}
use evering.Talc.Mutation
use evering.Directory.Memory.{
  held, evidence, pending_state, create_kind, entry_word, generation_of, owner_word,
  ProjectionError, Error, Meta, Memory, Region, pointer, offset_of, heap, allocated, deallocated,
}
use evering.Directory.Lookup.{Slot, slot_of}
use evering.Directory.Transaction.{
  set_transaction, persist, set_state, set_closed, set_mutation, commit_mutation, called,
  deallocate_during,
}
use evering.Directory.Create.{prove, place_block, allocate, build}
use evering.Directory.Crash.{Target}
use evering.Directory.Creation.{
  Recovers, idle_untouched, proven_held, reserved_given_back, reserved_stranded, reserved_untouched,
}
use evering.Directory.Throughout.{Throughout-begin, Throughout-allocate}
use evering.Directory.CreateRuns.{
  Held, Held-of, form, give_up_untouched, give_up_given_back, publish_any, same_state,
}

module _ {r : Region} {live owner index place i : ℕ} {m0 : Memory}
    (t : Target r live owner index place i m0) where
  abbrev at : ℕ × ℕ
  at = (place, i)

  abbrev before : ℕ
  before = m0.state place i

  abbrev generation : ℕ
  generation = generation_of before + 1

  abbrev slot : Slot
  slot = slot_of m0 (index, place, i)

  abbrev reserved_word : ℕ
  reserved_word = entry_word generation pending_state

  abbrev Good : Memory → Type 0
  Good = Recovers r live owner m0 at generation

  stranded_now : (m : Memory) → Held t m → m.mutation ≡ Mutation.owner_word owner → Good m
  stranded_now m h mine = reserved_stranded t m (form t m h) mine

  prove-Good :
      (meta : Meta) (admitted : Result (Unit {0}) ProjectionError) (x : Result ℕ ProjectionError)
      (m : Memory)
      → Held t m
      → m.mutation ≡ Mutation.owner_word owner
      → m.calls ≡ allocated meta ∷ m0.calls
      → Throughout Good (prove r owner slot at meta admitted x) m
  unfolding persist commit_mutation deallocate_during Mutation.commit
  prove-Good meta admitted (ok o) m h mine block =
      let m1 = record m { pending_slab = index } in
      let m2 = record m1 { pending_entry = i } in
      let m3 = record m2 { pending_kind = create_kind } in
      let m4 = record m3 { pending = meta } in
      let m5 = set_transaction (owner_word owner evidence) m4 in
      (
        stranded_now m h mine,
        (
          stranded_now m1 (Held-of t h refl refl refl) mine,
          (
            stranded_now m2 (Held-of t h refl refl refl) mine,
            (
              stranded_now m3 (Held-of t h refl refl refl) mine,
              (
                stranded_now m4 (Held-of t h refl refl refl) mine,
                (
                  proven_held t m5
                      (record {
                        form = record { word = refl; entries = h.entries; chain = h.chain };
                        slab_kept = refl;
                        entry_kept = refl;
                        kind_kept = refl;
                      })
                      mine,
                  publish_any t o meta admitted (set_mutation mutation_clean m5)
                      (record {
                        word = refl;
                        entries = h.entries;
                        chain = h.chain;
                        slab_kept = refl;
                        entry_kept = refl;
                        kind_kept = refl;
                        meta_kept = refl;
                        block = block;
                      })
                      refl,
                ),
              ),
            ),
          ),
        ),
      )
  prove-Good meta admitted (err e) m h mine block =
      let d = called (deallocated meta) m in
      let u = set_mutation mutation_clean d in
      (
        stranded_now m h mine,
        (
          stranded_now d (Held-of t h refl refl refl) mine,
          give_up_given_back t (Error.admission e) u meta (Held-of t h refl refl refl)
              (ap (λ c. deallocated meta ∷ c) block)
              (reserved_given_back t u meta (form t u (Held-of t h refl refl refl))
                (ap (λ c. deallocated meta ∷ c) block)),
        ),
      )
  prove-Good meta admitted panicked m h mine block = stranded_now m h mine

  untouched_now : (m : Memory) → Held t m → m.calls ≡ m0.calls → Good m
  untouched_now m h c = reserved_untouched t m (form t m h) c

  allocate-Good :
      (size align : ℕ) (admitted : Result (Unit {0}) ProjectionError) (m : Memory)
      → Held t m
      → m.mutation ≡ Mutation.owner_word owner
      → m.calls ≡ m0.calls
      → Throughout Good (allocate r owner slot at size align admitted (ok owner)) m
  unfolding commit_mutation Mutation.commit
  allocate-Good size align admitted m h mine c =
      Throughout-allocate Good r size align (place_block r owner slot at size admitted) m
        (untouched_now m h c)
        (λ meta.
          let a = called (allocated meta) m in
          let z = set_closed (pointer r meta) false a in
          (
            stranded_now a (Held-of t h refl refl refl) mine,
            prove-Good meta admitted (offset_of r (pointer r meta) size) z
                (Held-of t h refl refl refl) mine (ap (λ k. allocated meta ∷ k) c),
          ))
        (
          untouched_now m h c,
          (give_up_untouched t (heap MutationError.exhausted) (set_mutation mutation_clean m)
              (Held-of t h refl refl refl) c
              (untouched_now (set_mutation mutation_clean m) (Held-of t h refl refl refl) c)),
        )

  pub build-Good :
      (size align : ℕ) (admitted : Result (Unit {0}) ProjectionError)
      → m0.transaction ≡ owner_word owner held
      → Throughout Good (build r owner slot at size align admitted) m0
  unfolding build
  build-Good size align admitted e =
      let m = set_state at reserved_word m0 in
      let h : Held t m = record { word = e; entries = refl; chain = refl } in
      (
        idle_untouched t m0 (record { word = e; entries = sym (same_state t); chain = refl }) refl,
        Throughout-begin Good owner (allocate r owner slot at size align admitted) m
            (untouched_now m h refl)
            (allocate-Good size align admitted (set_mutation (Mutation.owner_word owner) m)
              (record { word = e; entries = refl; chain = refl }) refl refl)
            (λ x. give_up_untouched t (heap x) m h refl (untouched_now m h refl)),
      )
