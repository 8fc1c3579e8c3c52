-- ===== src/Queue/Reserve.antt =====
-- src/queue.rs, `Queue::reserve` with nobody else running: what it returns in each state that the
-- invariant allows, and that it keeps the invariant.
use evering.Base.{
  ℕ, ◌+◌, ◌/◌, ◌%◌, ◌^◌, ◌<◌, ◌≡◌, ◌≢◌, sym, ap, ap₂, ◌∙◌, inl, inr, Bool, true, false, arith,
  update, if◌then◌else◌, ◌==◌, eq→==, ne→==, Result, ok, err, update_self, update_ne, ℕ_discrete,
  refl, subst,
}
use evering.Atomic.{run}
use evering.Queue.Control.{owned, base, producer, consumer, source}
use evering.Queue.Memory.{Memory, Queue, apply, wrapping_add}
use evering.Queue.Ops.{or_state, reserve, Reserved, ReserveError, full, next_cursor, index_of}
use evering.Queue.Cursors.{
  Cursor, IsGeometry, next, encode, index_of-encode, next_cursor-encode, wrapping_add-encode,
  encode-injective, lap_differs,
}
use evering.Queue.Invariant.{
  Window, lap_at, IsFilled, IsVacant, Inv, SlotInv, Filled, Free, Claimed, IsReady, turn_in,
  SlotInv-move, IsSending,
}

-- No side of the direction has begun to close.
abbrev pub IsOpen : Queue → Memory → Type 0
IsOpen q m = or_state (m.lifecycle / 2 ^ q.send_field % 4) (m.lifecycle / 2 ^ q.recv_field % 4) ≡ 0

-- The cells after a successful reserve of the slot `i`.
abbrev pub reserved_memory : Queue → Memory → Memory
reserved_memory q m = record m {
  tail = next_cursor q m.tail;
  control = update m.control (index_of q m.tail) (owned producer false q.owner);
}

module _ (q : Queue) (m : Memory) (o : IsOpen q m) (inside : index_of q m.tail < q.capacity) where
  abbrev slot : ℕ
  slot = index_of q m.tail

  reserve-held :
      m.control slot ≢ 0
      → run apply (reserve q) m
        ≡ (err (if wrapping_add m.head q.one_lap == m.tail then full else ReserveError.busy), m)
  unfolding reserve apply
  reserve-held c = ground arith

  reserve-free :
      m.control slot ≡ 0
      → m.turn slot ≡ m.tail
      → run apply (reserve q) m ≡ (ok (record { slot = slot }), reserved_memory q m)
  unfolding reserve apply
  reserve-free c e = ground arith

-- What `reserve` may do: the error and the cells as they were, or the slot and the new cells.
pub data Reserves (q : Queue) (laps : ℕ) (h t : Cursor) (m : Memory)
    : Result Reserved ReserveError × Memory → Type 0 where
  is_full : t.lap ≡ h.lap + 1 → t.index ≡ h.index → Reserves q laps h t m (err full, m)
  is_busy : Claimed q laps h t m t.index → Reserves q laps h t m (err ReserveError.busy, m)
  is_ok :
      index_of q m.tail ≡ t.index
      → Free q laps h t m t.index
      → Inv q laps h (next q t) (reserved_memory q m)
      → IsSending q laps h (next q t) (reserved_memory q m) (index_of q m.tail)
      → Reserves q laps h t m (ok (record { slot = index_of q m.tail }), reserved_memory q m)

module _ {q : Queue} {laps : ℕ} (g : IsGeometry q laps) {h t : Cursor} {m : Memory}
    (v : Inv q laps h t m) where
  tail_slot : index_of q m.tail ≡ t.index
  tail_slot = ap (index_of q) v.tail_word ∙ index_of-encode g t v.tail_index

  tail_next : next_cursor q m.tail ≡ encode q laps (next q t)
  tail_next = ap (next_cursor q) v.tail_word ∙ next_cursor-encode g t v.tail_index

  head_lap :
      wrapping_add m.head q.one_lap ≡ encode q laps (record { lap = h.lap + 1; index = h.index })
  head_lap = ap (λ k. wrapping_add k q.one_lap) v.head_word ∙ wrapping_add-encode g h v.head_index

  -- The test that tells a full queue from a lost race.
  not_full : IsVacant h t t.index → wrapping_add m.head q.one_lap ≢ m.tail
  not_full p e = ground (
    arith,
    v.window,
    lap_differs g h.lap,
    encode-injective g (record { lap = h.lap + 1; index = h.index }) t v.head_index v.tail_index
        (sym head_lap ∙ e ∙ v.tail_word),
  )

  filled_full : IsFilled h t t.index → (t.lap ≡ h.lap + 1) × (t.index ≡ h.index)
  filled_full p = ground (arith, v.window)

  next_index : (next q t).index < q.capacity
  unfolding next
  next_index = ground (arith, v.tail_index, g.some_slot)

  lap_now : IsVacant h t t.index → lap_at h t.index ≡ t.lap
  lap_now p = ground (arith, v.window)

  Window-next : IsVacant h t t.index → Window h (next q t)
  unfolding next
  Window-next p = ground (arith, v.window)

  passed_slot : IsVacant h t t.index → IsFilled h (next q t) t.index
  unfolding next
  passed_slot p = ground (arith, v.window)

  other-IsFilled : (i : ℕ) → i < q.capacity → IsFilled h t i → IsFilled h (next q t) i
  unfolding next
  other-IsFilled i hi p = ground (arith, v.window)

  other-IsVacant : (i : ℕ) → i < q.capacity → i ≢ t.index → IsVacant h t i → IsVacant h (next q t) i
  unfolding next
  other-IsVacant i hi ne p = ground (arith, v.window)

  owned-producer : (done : Bool) (owner : ℕ) → base (owned producer done owner) ≡ producer
  unfolding owned
  owned-producer done owner = ground arith

  kept : (i : ℕ) → i ≢ t.index → (reserved_memory q m).control i ≡ m.control i
  kept i ne = update_ne m.control (index_of q m.tail) i _ (λ e. ne (e ∙ tail_slot))

  reserved-other :
      (i : ℕ)
      → i < q.capacity
      → i ≢ t.index
      → SlotInv q laps h t m i
      → SlotInv q laps h (next q t) (reserved_memory q m) i
  reserved-other i hi ne =
      SlotInv-move q laps i refl (other-IsFilled i hi) (other-IsVacant i hi ne) (kept i ne) refl

  reserved_self :
      Free q laps h t m t.index → Filled q laps h (next q t) (reserved_memory q m) t.index
  reserved_self s = record {
    passed = passed_slot s.passed;
    turned = s.turned;
    word = inl (
        ap base (
          ap (update m.control (index_of q m.tail) _) (sym tail_slot)
          ∙ update_self m.control (index_of q m.tail) _)
        ∙ owned-producer false q.owner);
  }

  reserved-Inv : Free q laps h t m t.index → Inv q laps h (next q t) (reserved_memory q m)
  reserved-Inv s = record {
    head_index = v.head_index;
    tail_index = next_index;
    window = Window-next s.passed;
    head_word = v.head_word;
    tail_word = tail_next;
    slots = λ i hi. elim (ℕ_discrete i t.index) [
      | yes e ↦ rw e (inl (reserved_self s))
      | no ne ↦ reserved-other i hi ne (v.slots i hi)
    ];
  }

  source-owned : (owner : ℕ) → owner < 63 → source (owned producer false owner) ≡ owner + 1
  unfolding owned
  source-owned owner h = omega arith

  self_word : (reserved_memory q m).control (index_of q m.tail) ≡ owned producer false q.owner
  self_word = update_self m.control (index_of q m.tail) (owned producer false q.owner)

  reserved-IsSending :
      Free q laps h t m t.index
      → IsSending q laps h (next q t) (reserved_memory q m) (index_of q m.tail)
  reserved-IsSending s = record {
    inside = rw tail_slot v.tail_index;
    filled =
        subst (λ i. Filled q laps h (next q t) (reserved_memory q m) i) (sym tail_slot)
          (reserved_self s);
    word = rw self_word (owned-producer false q.owner);
    owned_by = rw self_word (omega (arith, source-owned q.owner g.member));
  }

  inside : index_of q m.tail < q.capacity
  inside = rw tail_slot v.tail_index

  -- While the invariant holds and both sides are open, `reserve` by a lone participant does one of
  -- three things. The queue is a whole lap ahead: `Full`, and nothing changes. The slot at the
  -- tail is claimed and not recycled: `Busy`, and nothing changes. The slot is free: it is handed
  -- out, the tail passes it, and the invariant holds again.
  pub reserve_lem : IsOpen q m → Reserves q laps h t m (run apply (reserve q) m)
  reserve_lem o = elim (v.slots t.index v.tail_index) [
    | inl s ↦
        rw (reserve-held q m o inside (held s.word), test_full (filled_full s.passed))
          (is_full (filled_full s.passed).0 (filled_full s.passed).1)
    | inr (inl s) ↦
        rw (reserve-free q m o inside (at_tail s.word) (turn_at_tail s))
          (is_ok tail_slot s (reserved-Inv s) (reserved-IsSending s))
    | inr (inr s) ↦
        rw (reserve-held q m o inside (held_claimed s.word), test_busy s.passed) (is_busy s)
  ]
    where
      at_tail : m.control t.index ≡ 0 → m.control (index_of q m.tail) ≡ 0
      at_tail e = ap m.control tail_slot ∙ e

      turn_at_tail : Free q laps h t m t.index → m.turn (index_of q m.tail) ≡ m.tail
      turn_at_tail s =
          ap m.turn tail_slot
          ∙ s.turned
          ∙ ap (λ k. turn_in q laps k t.index) (lap_now s.passed)
          ∙ sym v.tail_word

      held : IsReady (m.control t.index) → m.control (index_of q m.tail) ≢ 0
      held r e = ground (arith, e, tail_slot)

      held_claimed : base (m.control t.index) ≡ consumer → m.control (index_of q m.tail) ≢ 0
      held_claimed r e = ground (arith, e, tail_slot)

      test_full :
          (t.lap ≡ h.lap + 1) × (t.index ≡ h.index)
          → (wrapping_add m.head q.one_lap == m.tail) ≡ true
      test_full p = eq→== _ _ (
          head_lap
          ∙ ap₂ (λ a b. encode q laps (record { lap = a; index = b })) (sym p.0) (sym p.1)
          ∙ sym v.tail_word)

      test_busy : IsVacant h t t.index → (wrapping_add m.head q.one_lap == m.tail) ≡ false
      test_busy p = ne→== _ _ (not_full p)
