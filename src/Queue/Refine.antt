-- ===== src/Queue/Refine.antt =====
-- src/queue.rs: a queue that nobody else uses answers every sequence of `try_send` and `try_recv`
-- as the bounded FIFO does.
use native.Mathlib.Nat.{zero-mod, zero-div}
use evering.Base.{
  ℕ, ◌+◌, ◌/◌, ◌%◌, ◌^◌, ◌≡◌, refl, sym, ap, ap₂, ◌∙◌, inl, inr, List, [], ◌∷◌, arith, ◌*◌,
}
use evering.Atomic.{run}
use evering.Queue.Control.{empty_base}
use evering.Queue.Memory.{Memory, Queue, apply}
use evering.Queue.Cursors.{Cursor, IsGeometry}
use evering.Queue.Invariant.{lap_at, turn_in}
use evering.Queue.Reserve.{reserve_lem}
use evering.Queue.Take.{head_slot, claim_lem}
use evering.Queue.Ends.{try_send, try_recv}
use evering.Queue.Fifo
use evering.Queue.Fifo.{Op, Reply, send, recv, sent, got}
use evering.Queue.Quiet.{alive-IsOpen, Quiet}
use evering.Queue.Sends.{send_lem}
use evering.Queue.Receives.{receive_lem}
use evering.Queue.Cursors.{encode}

unfoldable pub replies : Queue → List Op → Memory → List Reply
replies q [] m = []
replies q (send x ∷ ops) m = let (r, m') = run apply (try_send q x) m in sent r ∷ replies q ops m'
replies q (recv ∷ ops) m = let (r, m') = run apply (try_recv q) m in got r ∷ replies q ops m'

-- `Header::new` and `Slot::new(index)` for each slot: a fresh direction.
abbrev pub fresh : Memory
fresh = record {
  head = 0;
  tail = 0;
  lifecycle = 0;
  turn = λ i. i;
  control = λ _. empty_base;
  value = λ _. 0;
}

abbrev pub origin : Cursor
origin = record { lap = 0; index = 0 }

module _ {q : Queue} {laps : ℕ} (g : IsGeometry q laps) where
  at_origin : (i : ℕ) → i ≡ encode q laps (record { lap = 0; index = i })
  unfolding encode
  at_origin i = sym (ap (λ k. k * q.one_lap + i) (zero-mod laps) ∙ omega arith)

  lap_origin : (i : ℕ) → lap_at origin i ≡ 0
  lap_origin i = ground arith

  zero_field : (f : ℕ) → 0 / 2 ^ f % 4 ≡ 0
  zero_field f = ap (λ k. k % 4) (zero-div (2 ^ f))

  pub fresh-Quiet : Quiet q laps origin origin fresh []
  fresh-Quiet = record {
    inv = record {
      head_index = g.some_slot;
      tail_index = g.some_slot;
      window = inl (refl, omega arith);
      head_word = at_origin 0;
      tail_word = at_origin 0;
      slots = λ i hi. inr (
          inl (record {
            passed = inr (lap_origin i, omega arith);
            turned = at_origin i ∙ ap (λ n. turn_in q laps n i) (sym (lap_origin i));
            word = refl;
          }));
    };
    alive = (zero_field q.send_field, zero_field q.recv_field);
    done = λ i hi f. absurd (ground (arith, f));
    idle = λ i hi f. refl;
    holds = refl;
  }

  -- From any state of rest, every sequence of `try_send` and `try_recv` gets the answers of the
  -- FIFO of the queue's capacity that holds the same messages.
  pub replies_refine :
      (ops : List Op) {h t : Cursor} {m : Memory} {xs : List ℕ}
      → Quiet q laps h t m xs
      → replies q ops m ≡ Fifo.replies q.capacity ops xs
  unfolding replies Fifo.replies
  replies_refine [] v = refl
  replies_refine (send x ∷ ops) {m = m} v =
      let s = send_lem g v x (reserve_lem g v.inv (alive-IsOpen q m v.alive)) refl in
      ap₂ (λ r l. sent r ∷ l) s.answer (replies_refine ops s.quiet)
  replies_refine (recv ∷ ops) {m = m} v =
      let s = receive_lem g v (head_slot g v.inv) (claim_lem g v.inv v.alive.1) refl in
      ap₂ (λ r l. got r ∷ l) s.answer (replies_refine ops s.quiet)

  -- From a fresh direction on, of a geometry as `Duplex::geometry` gives it, every sequence of
  -- `try_send` and `try_recv` by one participant gets the answers of the FIFO of the queue's
  -- capacity, from an empty one on.
  pub fresh_refines : (ops : List Op) → replies q ops fresh ≡ Fifo.replies q.capacity ops []
  fresh_refines ops = replies_refine ops fresh-Quiet
