-- ===== src/Queue/ClaimRun.antt =====
-- src/queue.rs, `Queue::claim` with nobody else running, as equations on the cells: one for each
-- value that the control word of the slot at the head may have.
use evering.Base.{
  ℕ, ◌+◌, ◌/◌, ◌%◌, ◌^◌, ◌<◌, ◌≡◌, ◌≢◌, Bool, true, false, arith, update, if◌then◌else◌, ◌==◌, ok,
  err,
}
use evering.Atomic.{run}
use evering.Queue.Control.{owned, empty_base, available, consumer, complete}
use evering.Queue.Memory.{Memory, Queue, apply, wrapping_add}
use evering.Queue.Ops.{claim, Claim, ClaimError, empty, next_cursor, index_of}

-- The receiving side has not begun to close.
abbrev pub IsReceiving : Queue → Memory → Type 0
IsReceiving q m = m.lifecycle / 2 ^ q.recv_field % 4 ≡ 0

-- The cells after a successful claim of the slot at the head.
abbrev pub claimed_memory : Queue → Bool → Memory → Memory
claimed_memory q initialized m = record m {
  head = next_cursor q m.head;
  control = update m.control (index_of q m.head) (owned consumer initialized q.owner);
}

abbrev pub recycled : Claim → Memory → Memory
recycled c m = record m {
  turn = update m.turn c.slot c.next_turn;
  control = update m.control c.slot empty_base;
}

-- The claim that `claim` makes at the head.
abbrev pub claim_at : Queue → Bool → Memory → Claim
claim_at q initialized m = record {
  slot = index_of q m.head;
  next_turn = wrapping_add m.head q.one_lap;
  initialized = initialized;
}

module _ (q : Queue) (m : Memory) (o : IsReceiving q m)
    (inside : index_of q m.head < q.capacity) where
  abbrev pub slot : ℕ
  slot = index_of q m.head

  pub claim-other :
      m.control slot ≢ available
      → m.control slot ≢ available + complete
      → run apply (claim q) m ≡ (err (if m.tail == m.head then empty else ClaimError.busy), m)
  unfolding claim apply
  claim-other a b = ground arith

  pub claim-complete :
      m.control slot ≡ available + complete
      → m.turn slot ≡ m.head
      → run apply (claim q) m ≡ (ok (claim_at q true m), claimed_memory q true m)
  unfolding claim apply
  claim-complete a e = ground arith

  pub claim-skipped :
      m.control slot ≡ available
      → m.turn slot ≡ m.head
      → run apply (claim q) m
        ≡ (err ClaimError.busy, recycled (claim_at q false m) (claimed_memory q false m))
  unfolding claim apply
  claim-skipped a e = ground arith
