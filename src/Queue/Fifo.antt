-- ===== src/Queue/Fifo.antt =====
-- What `try_send` and `try_recv` of src/queue.rs promise: a bounded FIFO of messages.
use evering.Base.{ℕ, List, [], ◌∷◌, ◌++◌, Result, ok, err, ◌==◌, if◌then◌else◌, length}
use evering.Queue.Ends.{TrySendError, TryRecvError}

pub data Op : Type 0 where
  send : ℕ → Op
  recv : Op

pub data Reply : Type 0 where
  sent : Result (Unit {0}) TrySendError → Reply
  got : Result ℕ TryRecvError → Reply

unfoldable pub push : ℕ → List ℕ → ℕ → Result (Unit {0}) TrySendError × List ℕ
push capacity xs x =
    if length xs == capacity then (err (TrySendError.full x), xs) else (ok tt, xs ++ x ∷ [])

unfoldable pub pop : List ℕ → Result ℕ TryRecvError × List ℕ
pop [] = (err TryRecvError.empty, [])
pop (x ∷ xs) = (ok x, xs)

unfoldable pub replies : ℕ → List Op → List ℕ → List Reply
replies capacity [] xs = []
replies capacity (send x ∷ ops) xs =
    let (r, xs') = push capacity xs x in sent r ∷ replies capacity ops xs'
replies capacity (recv ∷ ops) xs = let (r, xs') = pop xs in got r ∷ replies capacity ops xs'
