-- ===== src/Queue/Receives.antt =====
-- src/queue.rs: `try_recv` from a queue at rest is the pop of the bounded FIFO.
use evering.Base.{
  ℕ, suc, ◌-◌, ◌≡◌, ◌≢◌, sym, ap, ◌∙◌, List, [], ◌∷◌, arith, Result, ok, err, update_self,
  update_ne, true, subst, ℕ_discrete,
}
use evering.Atomic.{run}
use evering.Queue.Memory.{Memory, Queue, apply}
use evering.Queue.Ops.{recycle, claim, take, index_of, Claim, ClaimError}
use evering.Queue.Cursors.{Cursor, IsGeometry, next}
use evering.Queue.Invariant.{IsFilled, Inv, IsTaking}
use evering.Queue.Take.{Claims, is_empty, is_busy, is_skipped, is_ok}
use evering.Queue.ClaimRun.{claimed_memory, claim_at, recycled}
use evering.Queue.Ends.{try_recv, TryRecvError}
use evering.Queue.Contents.{distance, values}
use evering.Queue.Fifo
use evering.Queue.Fifo.{Op, Reply, send, recv, sent, got}
use evering.Queue.Quiet.{Quiet, recv-ok, recv-empty}
use evering.Queue.Authority.{take_lem}
use evering.Queue.Contents.{distance-tail, IsFilled-tail, filled-ne, IsVacant-tail}

module _ {q : Queue} {laps : ℕ} (g : IsGeometry q laps) {h t : Cursor} {m : Memory} {xs : List ℕ}
    (v : Quiet q laps h t m xs) where
  open (v.inv) use {window, head_index, tail_index}

  -- What the queue gives is what the FIFO gives, and it is at rest again.
  pub record Got (out : Result ℕ TryRecvError × Memory) : Type 0 where
    pub cursor : Cursor
    pub answer : out.0 ≡ (Fifo.pop xs).0
    pub quiet : Quiet q laps cursor t out.1 (Fifo.pop xs).1

  no_distance : t.lap ≡ h.lap → t.index ≡ h.index → distance q h t ≡ 0
  no_distance l i = ground arith

  none_left : t.lap ≡ h.lap → t.index ≡ h.index → xs ≡ []
  none_left l i = sym v.holds ∙ ap (λ n. values q m.value n h) (no_distance l i)

  pop-nil : xs ≡ [] → Fifo.pop xs ≡ (err TryRecvError.empty, [])
  unfolding Fifo.pop
  pop-nil e = rw e

  pop-cons : {x : ℕ} {rest : List ℕ} → xs ≡ x ∷ rest → Fifo.pop xs ≡ (ok x, rest)
  unfolding Fifo.pop
  pop-cons e = rw e

  some_left : IsFilled h t h.index → distance q h t ≡ suc (distance q h t - 1)
  some_left f = ground (arith, window, head_index, tail_index)

  taken : Memory
  taken = recycled (claim_at q true m) (claimed_memory q true m)

  rest : List ℕ
  rest = values q m.value (distance q h t - 1) (next q h)

  split : IsFilled h t h.index → xs ≡ m.value h.index ∷ rest
  unfolding rest
  split f = sym v.holds ∙ ap (λ n. values q m.value n h) (some_left f)

  kept : (k : ℕ) → k ≢ index_of q m.head → taken.control k ≡ m.control k
  unfolding taken
  kept k ne =
      update_ne (claimed_memory q true m).control (index_of q m.head) k _ ne
      ∙ update_ne m.control (index_of q m.head) k _ ne

  taken-Quiet :
      index_of q m.head ≡ h.index
      → IsFilled h t h.index
      → Inv q laps (next q h) t (claimed_memory q true m)
      → IsTaking q laps (next q h) t (claimed_memory q true m) (claim_at q true m)
      → Quiet q laps (next q h) t taken rest
  unfolding taken rest take recycle apply
  taken-Quiet e f w k = record {
    inv = (take_lem w (claim_at q true m) g k).2;
    alive = v.alive;
    done = λ i hi p.
        kept i (λ z. filled-ne q window head_index tail_index i hi f p (z ∙ e))
        ∙ v.done i hi (IsFilled-tail q window head_index tail_index i hi (some_left f) p);
    idle = λ i hi p. elim (ℕ_discrete i (index_of q m.head)) [
      | yes same ↦ rw same (update_self (claimed_memory q true m).control (index_of q m.head) _)
      | no ne ↦
          kept i ne
          ∙ v.idle i hi (IsVacant-tail q window head_index tail_index i hi (λ z. ne (z ∙ sym e)) p)
    ];
    holds =
        ap (λ n. values q m.value n (next q h))
          (distance-tail q window head_index tail_index (some_left f));
  }

  pub receive_lem :
      index_of q m.head ≡ h.index
      → {out : Result Claim ClaimError × Memory} → Claims q laps h t m out
      → run apply (claim q) m ≡ out
      → Got (run apply (try_recv q) m)
  receive_lem i (is_empty l j) e = rw (recv-empty q m v.alive e) (record {
    cursor = h;
    answer = rw (pop-nil (none_left l j));
    quiet = rw (pop-nil (none_left l j)) (subst (Quiet q laps h t m) (none_left l j) v);
  })
  receive_lem i (is_busy s b) e = absurd (ground (arith, b, v.done h.index head_index s.passed))
  receive_lem i (is_skipped s a w) e =
      absurd (ground (arith, a, v.done h.index head_index s.passed))
  receive_lem i (is_ok s c w k) e = rw (recv-ok q m _ _ e) (record {
    cursor = next q h;
    answer = rw (pop-cons (split s.passed), i);
    quiet = rw (pop-cons (split s.passed)) (unfold taken in taken-Quiet i s.passed w k);
  })
