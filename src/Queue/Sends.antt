-- ===== src/Queue/Sends.antt =====
-- src/queue.rs: `try_send` into a queue at rest is the push of the bounded FIFO.
use native.Mathlib.Numerals.{add-one}
use evering.Base.{
  ℕ, ◌+◌, ◌-◌, ◌≡◌, ◌≢◌, refl, sym, ap, ap₂, ◌∙◌, List, [], ◌∷◌, ◌++◌, arith, length, Result, ok,
  err, update, update_self, update_ne, true, eq→==, ne→==, subst, ℕ_discrete,
}
use evering.Atomic.{run}
use evering.Queue.Control.{owned, source, producer}
use evering.Queue.Memory.{Memory, Queue, apply}
use evering.Queue.Ops.{reserve, stage, publish, index_of, Reserved, ReserveError}
use evering.Queue.Cursors.{Cursor, IsGeometry, next}
use evering.Queue.Invariant.{IsFilled, IsVacant, Inv}
use evering.Queue.Reserve.{Reserves, is_full, is_busy, is_ok, reserved_memory}
use evering.Queue.Ends.{try_send, TrySendError}
use evering.Queue.Contents.{distance, values, length-values, values-cong, values-snoc}
use evering.Queue.Fifo
use evering.Queue.Fifo.{Op, Reply, send, recv, sent, got}
use evering.Queue.Quiet.{Quiet, send-ok, send-full, sent_memory}
use evering.Queue.Invariant.{IsSending}
use evering.Queue.Authority.{stage_lem, publish_lem}
use evering.Queue.Contents.{distance-next, IsFilled-back, IsVacant-back, vacant_not_filled}

module _ {q : Queue} {laps : ℕ} (g : IsGeometry q laps) {h t : Cursor} {m : Memory} {xs : List ℕ}
    (v : Quiet q laps h t m xs) where
  -- What the queue does with `x` is what the FIFO does, and it is at rest again.
  pub record Sent (x : ℕ) (out : Result (Unit {0}) TrySendError × Memory) : Type 0 where
    pub cursor : Cursor
    pub answer : out.0 ≡ (Fifo.push q.capacity xs x).0
    pub quiet : Quiet q laps h cursor out.1 (Fifo.push q.capacity xs x).1

  length-holds : length xs ≡ distance q h t
  length-holds = ap length (sym v.holds) ∙ length-values q m.value (distance q h t) h

  push-full :
      (x : ℕ)
      → distance q h t ≡ q.capacity
      → Fifo.push q.capacity xs x ≡ (err (TrySendError.full x), xs)
  unfolding Fifo.push
  push-full x e = rw (eq→== _ _ (length-holds ∙ e))

  push-ok :
      (x : ℕ) → distance q h t ≢ q.capacity → Fifo.push q.capacity xs x ≡ (ok tt, xs ++ x ∷ [])
  unfolding Fifo.push
  push-ok x ne = rw (ne→== _ _ (λ e. ne (sym length-holds ∙ e)))

  at_lap : t.lap ≡ h.lap + 1 → t.index ≡ h.index → distance q h t ≡ q.capacity
  at_lap l i = ground (arith, v.inv.head_index)

  room_left : IsVacant h t t.index → distance q h t ≢ q.capacity
  room_left p e = ground (arith, v.inv.window, v.inv.head_index, v.inv.tail_index)

  -- The queue at rest after a message went in.
  sent-Quiet :
      (x i : ℕ)
      → i ≡ t.index
      → IsVacant h t t.index
      → Inv q laps h (next q t) (reserved_memory q m)
      → IsSending q laps h (next q t) (reserved_memory q m) i
      → index_of q m.tail ≡ i
      → Quiet q laps h (next q t) (sent_memory (reserved_memory q m) i x) (xs ++ x ∷ [])
  unfolding stage publish apply
  sent-Quiet x i e p w s j = record {
    inv =
        (publish_lem (stage_lem w (record { slot = i }) x s).4 (record { slot = i })
          (stage_lem w (record { slot = i }) x s).5).2;
    alive = v.alive;
    done = λ k hk f. elim (ℕ_discrete k i) [
      | yes same ↦ rw same (update_self (staged_control) i _)
      | no ne ↦
          kept k ne
          ∙ v.done k hk (
              IsFilled-back q v.inv.window v.inv.head_index v.inv.tail_index k hk
                (λ z. ne (z ∙ sym e)) f)
    ];
    idle = λ k hk f.
        let (was, ne) = IsVacant-back q v.inv.window v.inv.head_index v.inv.tail_index k hk p f in
        kept k (λ z. ne (z ∙ e)) ∙ v.idle k hk was;
    holds =
        ap (λ n. values q stored n h)
          (distance-next q v.inv.window v.inv.head_index v.inv.tail_index p
            ∙ add-one (distance q h t))
        ∙ values-snoc q v.inv.tail_index stored (distance q h t) h v.inv.window v.inv.head_index
            refl
        ∙ ap₂ (λ l y. l ++ y ∷ []) (same_values ∙ v.holds)
            (ap stored (sym e) ∙ update_self m.value i x);
  }
    where
      stored : ℕ → ℕ
      stored = update m.value i x

      staged_control : ℕ → ℕ
      staged_control =
          update (reserved_memory q m).control i
            (owned producer true (source ((reserved_memory q m).control i) - 1))

      kept : (k : ℕ) → k ≢ i → (sent_memory (reserved_memory q m) i x).control k ≡ m.control k
      kept k ne =
          update_ne staged_control i k _ ne
          ∙ update_ne (reserved_memory q m).control i k _ ne
          ∙ update_ne m.control (index_of q m.tail) k _ (λ z. ne (z ∙ j))

      same_values : values q stored (distance q h t) h ≡ values q m.value (distance q h t) h
      same_values =
          values-cong q v.inv.tail_index stored m.value (distance q h t) h v.inv.window
            v.inv.head_index refl
            (λ k hk f. update_ne m.value i k x (λ z.
              vacant_not_filled q v.inv.window v.inv.head_index v.inv.tail_index t.index
                v.inv.tail_index p (subst (IsFilled h t) (z ∙ e) f)))

  pub send_lem :
      (x : ℕ) {out : Result Reserved ReserveError × Memory}
      → Reserves q laps h t m out
      → run apply (reserve q) m ≡ out
      → Sent x (run apply (try_send q x) m)
  send_lem x (is_full l i) e = rw (send-full q m x e) (record {
    cursor = t;
    answer = rw (push-full x (at_lap l i));
    quiet = rw (push-full x (at_lap l i)) v;
  })
  send_lem x (is_busy s) e =
      absurd (ground (arith, s.word, v.idle t.index v.inv.tail_index s.passed))
  send_lem x (is_ok i s w k) e = rw (send-ok q m x _ _ e) (record {
    cursor = next q t;
    answer = rw (push-ok x (room_left s.passed));
    quiet = rw (push-ok x (room_left s.passed)) (sent-Quiet x _ i s.passed w k refl);
  })
