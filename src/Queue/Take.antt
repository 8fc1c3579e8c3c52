-- ===== src/Queue/Take.antt =====
-- src/queue.rs, `Queue::claim` and `Claim::recycle` with nobody else running: what `claim` returns
-- in each state that the invariant allows, and that both keep the invariant.
use evering.Base.{
  ℕ, ◌+◌, ◌-◌, ◌<◌, ◌≡◌, ◌≢◌, refl, sym, ap, ap₂, ◌∙◌, inl, inr, Bool, true, false, arith, update,
  eq→==, ne→==, Result, ok, err, update_self, update_ne, ℕ_discrete, subst,
}
use evering.Atomic.{run}
use evering.Queue.Control.{owned, base, empty_base, producer, available, consumer, complete}
use evering.Queue.Memory.{Memory, Queue, apply, wrapping_add}
use evering.Queue.Ops.{claim, Claim, ClaimError, empty, next_cursor, index_of}
use evering.Queue.Cursors.{
  Cursor, IsGeometry, next, encode, index_of-encode, next_cursor-encode, wrapping_add-encode,
  encode-injective, lap_differs,
}
use evering.Queue.Invariant.{
  Window, lap_at, IsFilled, IsVacant, Inv, SlotInv, Filled, IsReady, turn_in, SlotInv-move,
  IsTaking, Claimed,
}
use evering.Queue.ClaimRun.{
  IsReceiving, claimed_memory, recycled, claim_at, claim-other, claim-complete, claim-skipped,
}

-- What `claim` may do: an error and the cells as they were; a slot that its sender gave up, which
-- is recycled on the spot; or the message at the head.
pub data Claims (q : Queue) (laps : ℕ) (h t : Cursor) (m : Memory)
    : Result Claim ClaimError × Memory → Type 0 where
  is_empty : t.lap ≡ h.lap → t.index ≡ h.index → Claims q laps h t m (err empty, m)
  is_busy :
      Filled q laps h t m h.index
      → base (m.control h.index) ≡ producer
      → Claims q laps h t m (err ClaimError.busy, m)
  is_skipped :
      Filled q laps h t m h.index
      → m.control h.index ≡ available
      → Inv q laps (next q h) t (recycled (claim_at q false m) (claimed_memory q false m))
      → Claims q laps h t m
          (err ClaimError.busy, recycled (claim_at q false m) (claimed_memory q false m))
  is_ok :
      Filled q laps h t m h.index
      → m.control h.index ≡ available + complete
      → Inv q laps (next q h) t (claimed_memory q true m)
      → IsTaking q laps (next q h) t (claimed_memory q true m) (claim_at q true m)
      → Claims q laps h t m (ok (claim_at q true m), claimed_memory q true m)

module _ {q : Queue} {laps : ℕ} (g : IsGeometry q laps) {h t : Cursor} {m : Memory}
    (v : Inv q laps h t m) where
  pub head_slot : index_of q m.head ≡ h.index
  head_slot = ap (index_of q) v.head_word ∙ index_of-encode g h v.head_index

  head_next : next_cursor q m.head ≡ encode q laps (next q h)
  head_next = ap (next_cursor q) v.head_word ∙ next_cursor-encode g h v.head_index

  head_lap : wrapping_add m.head q.one_lap ≡ turn_in q laps (h.lap + 1) h.index
  head_lap = ap (λ k. wrapping_add k q.one_lap) v.head_word ∙ wrapping_add-encode g h v.head_index

  lap_now : lap_at h h.index ≡ h.lap
  lap_now = ground arith

  empty_here : IsVacant h t h.index → (t.lap ≡ h.lap) × (t.index ≡ h.index)
  empty_here p = ground (arith, v.window)

  not_empty : IsFilled h t h.index → m.tail ≢ m.head
  not_empty p e = ground (
    arith,
    v.window,
    lap_differs g h.lap,
    encode-injective g t h v.tail_index v.head_index (sym v.tail_word ∙ e ∙ v.head_word),
  )

  next_index : (next q h).index < q.capacity
  unfolding next
  next_index = ground (arith, v.head_index, g.some_slot)

  Window-next : IsFilled h t h.index → Window (next q h) t
  unfolding next
  Window-next p = ground (arith, v.window, v.head_index, v.tail_index)

  passed_slot : IsFilled h t h.index → IsVacant (next q h) t h.index
  unfolding next
  passed_slot p = ground (arith, v.window, v.head_index, v.tail_index)

  lap_self : lap_at (next q h) h.index ≡ h.lap + 1
  unfolding next
  lap_self = ground arith

  lap_other : (i : ℕ) → i < q.capacity → i ≢ h.index → lap_at (next q h) i ≡ lap_at h i
  unfolding next
  lap_other i hi ne = ground arith

  kept : (f : ℕ → ℕ) (x i : ℕ) → i ≢ h.index → update f (index_of q m.head) x i ≡ f i
  kept f x i ne = update_ne f (index_of q m.head) i x (λ e. ne (e ∙ head_slot))

  put : (f : ℕ → ℕ) (x : ℕ) → update f (index_of q m.head) x h.index ≡ x
  put f x =
      ap (update f (index_of q m.head) x) (sym head_slot) ∙ update_self f (index_of q m.head) x

  drop_one : (n : ℕ) → n ≡ n + 1 - 1
  drop_one n = omega arith

  owned-consumer : (done : Bool) (owner : ℕ) → base (owned consumer done owner) ≡ consumer
  unfolding owned
  owned-consumer done owner = ground arith

  -- A slot other than the head's stays what it was when the head moves on.
  slot-other :
      (m' : Memory) (i : ℕ)
      → i < q.capacity
      → i ≢ h.index
      → m'.control i ≡ m.control i
      → m'.turn i ≡ m.turn i
      → SlotInv q laps h t m i
      → SlotInv q laps (next q h) t m' i
  slot-other m' i hi ne =
      SlotInv-move q laps i (lap_other i hi ne) (λ p. rw (lap_other i hi ne) p)
        (λ p. rw (lap_other i hi ne) p)

  claimed-Claimed :
      (initialized : Bool)
      → Filled q laps h t m h.index
      → Claimed q laps (next q h) t (claimed_memory q initialized m) h.index
  claimed-Claimed initialized s = record {
    passed = passed_slot s.passed;
    later = rw lap_self (omega arith);
    turned = rw lap_self (s.turned ∙ ap (λ k. turn_in q laps k h.index) (lap_now ∙ drop_one h.lap));
    word =
        rw (put m.control (owned consumer initialized q.owner))
          (owned-consumer initialized q.owner);
  }

  inside : index_of q m.head < q.capacity
  inside = rw head_slot v.head_index

  turn_at_head : Filled q laps h t m h.index → m.turn (index_of q m.head) ≡ m.head
  turn_at_head s =
      ap m.turn head_slot ∙ s.turned ∙ ap (λ k. turn_in q laps k h.index) lap_now ∙ sym v.head_word

  claimed-IsTaking :
      Filled q laps h t m h.index
      → IsTaking q laps (next q h) t (claimed_memory q true m) (claim_at q true m)
  claimed-IsTaking s = record {
    inside = inside;
    claimed =
        subst (λ i. Claimed q laps (next q h) t (claimed_memory q true m) i) (sym head_slot)
          (claimed-Claimed true s);
    turn = ap (λ k. wrapping_add k q.one_lap) (sym (turn_at_head s));
  }

  claimed-Inv :
      (initialized : Bool)
      → Filled q laps h t m h.index
      → Inv q laps (next q h) t (claimed_memory q initialized m)
  claimed-Inv initialized s = record {
    head_index = next_index;
    tail_index = v.tail_index;
    window = Window-next s.passed;
    head_word = head_next;
    tail_word = v.tail_word;
    slots = λ i hi. elim (ℕ_discrete i h.index) [
      | yes e ↦ rw e (inr (inr (claimed-Claimed initialized s)))
      | no ne ↦ slot-other _ i hi ne (kept m.control _ i ne) refl (v.slots i hi)
    ];
  }

  recycled-Inv :
      Filled q laps h t m h.index
      → Inv q laps (next q h) t (recycled (claim_at q false m) (claimed_memory q false m))
  recycled-Inv s = record {
    head_index = next_index;
    tail_index = v.tail_index;
    window = Window-next s.passed;
    head_word = head_next;
    tail_word = v.tail_word;
    slots = λ i hi. elim (ℕ_discrete i h.index) [
      | yes e ↦ rw e (
          inr (
            inl (record {
              passed = passed_slot s.passed;
              turned = rw lap_self (put m.turn _ ∙ head_lap);
              word = put (claimed_memory q false m).control empty_base;
            })))
      | no ne ↦
          slot-other _ i hi ne
            (kept (claimed_memory q false m).control empty_base i ne
              ∙ kept m.control (owned consumer false q.owner) i ne)
            (kept m.turn _ i ne) (v.slots i hi)
    ];
  }

  at_head : {x : ℕ} → m.control h.index ≢ x → m.control (index_of q m.head) ≢ x
  at_head a e = a (ap m.control (sym head_slot) ∙ e)

  vacant_claim :
      IsReceiving q m
      → (t.lap ≡ h.lap) × (t.index ≡ h.index)
      → m.control h.index ≢ available
      → m.control h.index ≢ available + complete
      → Claims q laps h t m (run apply (claim q) m)
  vacant_claim o p a b =
      rw (claim-other q m o inside (at_head a) (at_head b), eq→== m.tail m.head same)
        (is_empty p.0 p.1)
    where
      same : m.tail ≡ m.head
      same =
          v.tail_word
          ∙ ap₂ (λ a b. encode q laps (record { lap = a; index = b })) p.0 p.1
          ∙ sym v.head_word

  filled_claim :
      IsReceiving q m
      → (s : Filled q laps h t m h.index) → IsReady (m.control h.index)
      → Claims q laps h t m (run apply (claim q) m)
  filled_claim o s (inl w) =
      rw
        (
          claim-other q m o inside (at_head (λ e. ground (arith, e)))
              (at_head (λ e. ground (arith, e))),
          ne→== m.tail m.head (not_empty s.passed),
        )
        (is_busy s w)
  filled_claim o s (inr (inl w)) =
      rw (claim-skipped q m o inside (ap m.control head_slot ∙ w) (turn_at_head s))
        (is_skipped s w (recycled-Inv s))
  filled_claim o s (inr (inr w)) =
      rw (claim-complete q m o inside (ap m.control head_slot ∙ w) (turn_at_head s))
        (is_ok s w (claimed-Inv true s) (claimed-IsTaking s))

  -- While the invariant holds and the receiving side is open, `claim` by a lone participant does
  -- one of four things. Head and tail agree: `Empty`, and nothing changes. The sender of the slot
  -- at the head has not published: `Busy`, and nothing changes. The sender gave the slot up: it is
  -- recycled, the head passes it, and the answer is `Busy`. The message at the head is claimed and
  -- the head passes it. The invariant holds again in each case.
  pub claim_lem : IsReceiving q m → Claims q laps h t m (run apply (claim q) m)
  claim_lem o = elim (v.slots h.index v.head_index) [
    | inl s ↦ filled_claim o s s.word
    | inr (inl s) ↦
        vacant_claim o (empty_here s.passed) (λ e. ground (arith, s.word, e))
          (λ e. ground (arith, s.word, e))
    | inr (inr s) ↦
        vacant_claim o (empty_here s.passed) (λ e. ground (arith, s.word, e))
          (λ e. ground (arith, s.word, e))
  ]
