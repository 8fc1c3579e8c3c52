-- ===== src/Queue/Ends.antt =====
-- src/queue.rs, `QueueTx::try_send` and `QueueRx::try_recv`: a message in, a message out.
use evering.Base.{ℕ, Result, ok, err, panicked, if◌then◌else◌}
use evering.Atomic.{ret, ◌>>=◌, ◌>>◌}
use evering.Queue.Memory.{Queue}
use evering.Queue.Ops.{
  ReserveError, ClaimError, Step, reserve, stage, publish, claim, take, terminal,
}

-- The error gives the message back.
pub data TrySendError : Type 0 where
  full busy disconnected : ℕ → TrySendError

pub data TryRecvError : Type 0 where
  empty busy disconnected : TryRecvError

module _ (q : Queue) where
  unfoldable pub try_send : ℕ → Step (Result (Unit {0}) TrySendError)
  try_send value = do
    reserved ← reserve q
    elim reserved [
      | ok r ↦ (do s ← stage r value; publish s; ret (ok tt))
      | err e ↦ elim e [
        | ReserveError.closed ↦ ret (err (TrySendError.disconnected value))
        | ReserveError.full ↦ ret (err (TrySendError.full value))
        | ReserveError.busy ↦ ret (err (TrySendError.busy value))
      ]
      | panicked ↦ ret panicked
    ]

  unfoldable pub try_recv : Step (Result ℕ TryRecvError)
  try_recv = do
    claimed ← claim q
    elim claimed [
      | ok c ↦ (do value ← take c; ret (ok value))
      | err e ↦ elim e [
        | ClaimError.closed ↦ ret (err TryRecvError.disconnected)
        | ClaimError.empty ↦ (do
          over ← terminal q
          ret (err (if over then TryRecvError.disconnected else TryRecvError.empty)))
        | ClaimError.busy ↦ ret (err TryRecvError.busy)
      ]
      | panicked ↦ ret panicked
    ]
