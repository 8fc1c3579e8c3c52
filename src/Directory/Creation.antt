-- ===== src/Directory/Creation.antt =====
-- src/dir.rs: a creation that dies after any of its accesses, and its recovery.
use evering.Base.{ℕ, ◌+◌, ◌-◌, ◌≡◌, refl, sym, ap, ap₂, ◌∙◌, ◌∷◌, arith, subst}
use evering.Steps.{run}
use evering.Talc.Mutation.{mutation_clean, mutation_poisoned}
use evering.Talc.Mutation
use evering.Directory.Memory.{
  clean, held, evidence, vacant, pending_state, published, quarantined_state, create_kind,
  entry_word, state_of, generation_of, owner_word, Meta, Memory, Region, allocated, deallocated,
}
use evering.Directory.Lookup.{Slot, slot_of}
use evering.Directory.Transaction.{put}
use evering.Directory.Settle.{Operation, operation, settle, creation, unknown}
use evering.Directory.Recover.{phase_left, recover}
use evering.Directory.Arms.{settle_creation, settle_poisoned, settle_unknown, after_owned}
use evering.Directory.Crash.{
  word_back, word_age, word_state, after_idle, after_reservation, after_evidence, Shape, Target,
  put_same, put_twice,
}

-- What a creation that began with the memory `m0` leaves, after recovery. Its entry has the word it
-- had, and no block is allocated, or the block is given back, or the heap is poisoned; or its entry is
-- published, with its block; or its entry is quarantined.
pub data Fate (m0 : Memory) (at : ℕ × ℕ) (generation : ℕ) (m : Memory) : Type 0 where
  untouched : m.state ≡ m0.state → m.calls ≡ m0.calls → Fate m0 at generation m
  given_back :
      (meta : Meta)
      → m.state ≡ m0.state
      → m.calls ≡ deallocated meta ∷ allocated meta ∷ m0.calls
      → Fate m0 at generation m
  stranded : m.state ≡ m0.state → m.mutation ≡ mutation_poisoned → Fate m0 at generation m
  created :
      (meta : Meta)
      → m.state ≡ put m0.state at (entry_word generation published)
      → m.calls ≡ allocated meta ∷ m0.calls
      → Fate m0 at generation m
  set_aside :
      (age : ℕ)
      → m.state ≡ put m0.state at (entry_word age quarantined_state)
      → Fate m0 at generation m

pub record Recovers (r : Region) (live owner : ℕ) (m0 : Memory) (at : ℕ × ℕ) (generation : ℕ)
    (m : Memory) : Type 0 where
  pub ends : ((run (recover r live owner) m).1).transaction ≡ clean
  pub fate : Fate m0 at generation (run (recover r live owner) m).1

module _ {r : Region} {live owner index place i : ℕ} {m0 : Memory}
    (t : Target r live owner index place i m0) where
  abbrev pub at : ℕ × ℕ
  at = (place, i)

  abbrev pub before : ℕ
  before = m0.state place i

  abbrev pub generation : ℕ
  generation = generation_of before + 1

  abbrev pub slot : Slot
  slot = slot_of m0 (index, place, i)

  abbrev pub Good : Memory → Type 0
  Good = Recovers r live owner m0 at generation

  -- what recovery leaves, by an equation for it
  pub good :
      (m m' : Memory)
      → (run (recover r live owner) m).1 ≡ m'
      → m'.transaction ≡ clean
      → Fate m0 at generation m'
      → Good m
  good m m' e c f = record {
    ends = ap (λ x. x.transaction) e ∙ c;
    fate = subst (Fate m0 at generation) (sym e) f;
  }

  abbrev pub Form : ℕ → ℕ → Memory → Type 0
  Form = Shape t

  back :
      (m : Memory) (w v : ℕ)
      → m.state ≡ put m0.state at w
      → v ≡ before
      → put m.state at v ≡ m0.state
  back m w v e h = ap (λ f. put f at v) e ∙ put_twice m0.state at w v ∙ put_same m0.state at v h

  forth :
      (m : Memory) (w v : ℕ) → m.state ≡ put m0.state at w → put m.state at v ≡ put m0.state at v
  forth m w v e = ap (λ f. put f at v) e ∙ put_twice m0.state at w v

  -- The transaction is held, and the entry has the word it had, or a block is being allocated.
  pub idle_untouched : (m : Memory) → Form held before m → m.calls ≡ m0.calls → Good m
  idle_untouched m s c =
      good m _ (after_idle t before m s (t.settled place i)) refl
        (untouched (s.entries ∙ put_same m0.state at before refl) c)

  pub idle_given_back :
      (m : Memory) (meta : Meta)
      → Form held before m
      → m.calls ≡ deallocated meta ∷ allocated meta ∷ m0.calls
      → Good m
  idle_given_back m meta s c =
      good m _ (after_idle t before m s (t.settled place i)) refl
        (given_back meta (s.entries ∙ put_same m0.state at before refl) c)

  pub reserved_untouched :
      (m : Memory) → Form held (entry_word generation pending_state) m → m.calls ≡ m0.calls → Good m
  reserved_untouched m s c =
      good m _ (after_reservation t (entry_word generation pending_state) m s refl) refl (
        untouched
          (back m (entry_word generation pending_state) (entry_word (generation - 1) vacant)
            s.entries (word_back t))
          c)

  pub reserved_given_back :
      (m : Memory) (meta : Meta)
      → Form held (entry_word generation pending_state) m
      → m.calls ≡ deallocated meta ∷ allocated meta ∷ m0.calls
      → Good m
  reserved_given_back m meta s c =
      good m _ (after_reservation t (entry_word generation pending_state) m s refl) refl (
        given_back meta
          (back m (entry_word generation pending_state) (entry_word (generation - 1) vacant)
            s.entries (word_back t))
          c)

  -- The block is allocated, and the heap is still held: it is poisoned.
  pub reserved_stranded :
      (m : Memory)
      → Form held (entry_word generation pending_state) m
      → m.mutation ≡ Mutation.owner_word owner
      → Good m
  reserved_stranded m s c =
      good m _ (after_reservation t (entry_word generation pending_state) m s refl) refl (
        stranded
          (back m (entry_word generation pending_state) (entry_word (generation - 1) vacant)
            s.entries (word_back t))
          (after_owned owner m.mutation c))

  -- There is evidence of the creation.
  pub record Proof (w : ℕ) (m : Memory) : Type 0 where
    pub form : Form evidence w m
    pub slab_kept : m.pending_slab ≡ index
    pub entry_kept : m.pending_entry ≡ i
    pub kind_kept : m.pending_kind ≡ create_kind

  arm :
      (w age : ℕ) (o : Operation) (m : Memory)
      → Proof w m
      → operation create_kind (state_of w) evidence ≡ o
      → generation_of w ≡ age
      → run (recover r live owner) m
        ≡ run (settle r live o owner (owner_word owner evidence) evidence at age) m
  arm w age o m p = after_evidence t w m o age p.form p.slab_kept p.entry_kept p.kind_kept

  pub proven_held :
      (m : Memory)
      → Proof (entry_word generation pending_state) m
      → m.mutation ≡ Mutation.owner_word owner
      → Good m
  unfolding operation
  proven_held m p c =
      good m _
        (ap (λ z. z.1)
            (arm (entry_word generation pending_state) generation creation m p
              (ap (λ x. operation create_kind x evidence)
                (word_state t pending_state (omega arith)))
              (word_age t pending_state (omega arith)))
          ∙ settle_poisoned r live owner (owner_word owner evidence) m at generation t.small
              p.form.word c t.debug_on refl)
        refl (set_aside _ (forth m (entry_word generation pending_state) _ p.form.entries))

  pub proven_clean :
      (m : Memory) (meta : Meta)
      → Proof (entry_word generation pending_state) m
      → m.mutation ≡ mutation_clean
      → m.pending ≡ meta
      → m.calls ≡ allocated meta ∷ m0.calls
      → Good m
  unfolding operation
  proven_clean m meta p c e1 e2 =
      good m _
        (ap (λ z. z.1)
            (arm (entry_word generation pending_state) generation creation m p
              (ap (λ x. operation create_kind x evidence)
                (word_state t pending_state (omega arith)))
              (word_age t pending_state (omega arith)))
          ∙ settle_creation r live owner (owner_word owner evidence) m at generation t.small
              p.form.word (omega arith) c)
        refl
        (given_back meta
          (back m (entry_word generation pending_state) (entry_word (generation - 1) vacant)
            p.form.entries (word_back t))
          (ap₂ (λ x y. deallocated x ∷ y) e1 e2))

  -- The entry is published, or vacant again, and the evidence is still there.
  pub proven_unknown :
      (w : ℕ) (m : Memory)
      → Proof w m
      → operation create_kind (state_of w) evidence ≡ unknown
      → Good m
  proven_unknown w m p o =
      good m _
        (ap (λ z. z.1) (arm w (generation_of w) unknown m p o refl)
          ∙ settle_unknown r live owner (owner_word owner evidence) m at (generation_of w) t.small
              p.form.word t.debug_on refl)
        refl (set_aside _ (forth m w _ p.form.entries))

  pub idle_created :
      (m : Memory) (meta : Meta)
      → Form held (entry_word generation published) m
      → m.calls ≡ allocated meta ∷ m0.calls
      → Good m
  idle_created m meta s c =
      good m _
        (after_idle t (entry_word generation published) m s
          (ground (arith, word_state t published (omega arith))))
        refl (created meta s.entries c)

  -- Nobody is in a transaction: there is nothing to recover.
  pub Good-clean : (m : Memory) → m.transaction ≡ clean → Fate m0 at generation m → Good m
  unfolding recover phase_left
  Good-clean m e f = good m m (ground (arith, t.same_region, e)) e f
