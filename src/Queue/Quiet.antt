-- ===== src/Queue/Quiet.antt =====
-- src/queue.rs: a queue at rest, and `try_send` and `try_recv` as equations on the cells.
use evering.Base.{
  ℕ, ◌+◌, ◌-◌, ◌/◌, ◌%◌, ◌^◌, ◌<◌, ◌≡◌, ◌∙◌, List, arith, ok, err, update, true, false,
}
use evering.Atomic.{run, run-first}
use evering.Queue.Control.{owned, source, empty_base, producer, available, complete}
use evering.Queue.Memory.{Memory, Queue, apply}
use evering.Queue.Ops.{
  reserve, stage, publish, claim, take, terminal, Reserved, ReserveError, Claim, ClaimError,
}
use evering.Queue.Cursors.{Cursor}
use evering.Queue.Invariant.{IsFilled, IsVacant, Inv}
use evering.Queue.Reserve.{IsOpen}
use evering.Queue.ClaimRun.{recycled}
use evering.Queue.Ends.{try_send, try_recv, TrySendError, TryRecvError}
use evering.Queue.Contents.{distance, values}

-- Neither side has begun to close.
abbrev pub IsAlive : Queue → Memory → Type 0
IsAlive q m = (m.lifecycle / 2 ^ q.send_field % 4 ≡ 0) × (m.lifecycle / 2 ^ q.recv_field % 4 ≡ 0)

-- Nobody is in the middle of an operation, neither side has begun to close, and the messages that
-- wait are `xs`.
pub record Quiet (q : Queue) (laps : ℕ) (h t : Cursor) (m : Memory) (xs : List ℕ) : Type 0 where
  pub inv : Inv q laps h t m
  pub alive : IsAlive q m
  pub done : (i : ℕ) → i < q.capacity → IsFilled h t i → m.control i ≡ available + complete
  pub idle : (i : ℕ) → i < q.capacity → IsVacant h t i → m.control i ≡ empty_base
  pub holds : values q m.value (distance q h t) h ≡ xs

-- The cells after `stage` and `publish` of `x` in the slot `i`.
abbrev pub sent_memory : Memory → ℕ → ℕ → Memory
sent_memory m i x = record m {
  control =
      update (update m.control i (owned producer true (source (m.control i) - 1))) i
        (available + complete);
  value = update m.value i x;
}

module _ (q : Queue) (m : Memory) where
  pub send-ok :
      (x : ℕ) (r : Reserved) (m' : Memory)
      → run apply (reserve q) m ≡ (ok r, m')
      → run apply (try_send q x) m ≡ (ok tt, sent_memory m' r.slot x)
  unfolding try_send stage publish apply
  send-ok x r m' e = run-first apply (reserve q) _ m e

  pub send-full :
      (x : ℕ)
      → run apply (reserve q) m ≡ (err ReserveError.full, m)
      → run apply (try_send q x) m ≡ (err (TrySendError.full x), m)
  unfolding try_send
  send-full x e = run-first apply (reserve q) _ m e

  pub recv-ok :
      (c : Claim) (m' : Memory)
      → run apply (claim q) m ≡ (ok c, m')
      → run apply (try_recv q) m ≡ (ok (m'.value c.slot), recycled c m')
  unfolding try_recv take apply
  recv-ok c m' e = run-first apply (claim q) _ m e

  terminal_alive : IsAlive q m → run apply (terminal q) m ≡ (false, m)
  unfolding terminal apply
  terminal_alive o = ground arith

  pub alive-IsOpen : IsAlive q m → IsOpen q m
  alive-IsOpen o = ground arith

  pub recv-empty :
      IsAlive q m
      → run apply (claim q) m ≡ (err ClaimError.empty, m)
      → run apply (try_recv q) m ≡ (err TryRecvError.empty, m)
  unfolding try_recv terminal apply
  recv-empty o e =
      run-first apply (claim q) _ m e ∙ run-first apply (terminal q) _ m (terminal_alive o)
