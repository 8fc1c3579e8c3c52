-- ===== src/Queue/RepairRun.antt =====
-- src/queue.rs, `repair_slot_with` of a slot that a dead receiver held, with nobody else running.
use evering.Queue.ClaimRun.{IsReceiving, claim-other}
use evering.Queue.Ops.{index_of, claim, ClaimError}
use evering.Base.{
  ℕ, ◌+◌, ◌*◌, ◌<◌, ◌≡◌, ◌≢◌, refl, arith, Bool, true, false, not, ◌&&◌, ltb, ◌==◌, if◌then◌else◌,
  update, ◌∙◌, ap, err, ne→==,
}
use evering.Atomic.{run}
use evering.Queue.Control.{
  canonical, empty_base, available, consumer, complete, reaper_unit, participant_capacity,
}
use evering.Queue.Memory.{Memory, Queue, apply, wrapping_add}
use evering.Queue.Repair.{
  recovered, plan, go, repair_slot_with, repair_held, repair_consumer, stuck_payload, wrapping_sub,
  half_range, verdict, mark,
}

-- The word that a receiver leaves in the slot it claims.
abbrev pub claimed_word : Bool → ℕ → ℕ
claimed_word done owner = consumer + (if done then complete else 0) + (owner + 1) * 8

module _ (done : Bool) (dead live : ℕ) (hd : dead < participant_capacity)
    (hl : live < participant_capacity) where
  is_canonical : canonical (claimed_word done dead) ≡ true
  unfolding canonical
  is_canonical = ground (arith, hd)

  planned :
      plan (claimed_word done dead) dead live
      ≡ go (claimed_word done dead + (live + 1) * reaper_unit)
  unfolding plan
  planned = ground (arith, hd, hl)

  asked :
      verdict (claimed_word done dead) dead live
      ≡ go (claimed_word done dead + (live + 1) * reaper_unit)
  unfolding verdict
  asked = ground (arith, is_canonical, planned)

-- The cells after the repair of the slot `i`: restored for the head, recycled behind it, or emptied.
abbrev pub repaired : Queue → Bool → ℕ → Memory → Memory
repaired q done i m =
    let distance = wrapping_sub m.head (m.turn i) in
    if m.head == m.turn i
    then record m { control = update m.control i (available + (if done then complete else 0)) }
    else if not (distance == 0) && ltb distance half_range
    then record m {
      turn = update m.turn i (wrapping_add (m.turn i) q.one_lap);
      control = update m.control i empty_base;
    }
    else record m { control = update m.control i empty_base }

module _ (q : Queue) (release : ℕ → ℕ → Bool) (i : ℕ) (done : Bool) (dead live : ℕ)
    (m : Memory) where
  -- The cells once the repairer has put its name on the slot.
  abbrev pub marked : Memory
  marked = record m {
    control = update m.control i (claimed_word done dead + (live + 1) * reaper_unit);
  }

  held_lem :
      (n : Memory)
      → n.value i ≡ m.value i
      → release (m.value i) dead ≡ true
      → dead < participant_capacity
      → run apply (repair_held q release i (claimed_word done dead)) n
        ≡ (recovered, repaired q done i n)
  unfolding repair_held repair_consumer stuck_payload apply
  held_lem n v r hd = ground (arith, r, hd, v)

  begun :
      (next : ℕ)
      → i < q.capacity
      → dead < participant_capacity
      → live < participant_capacity
      → verdict (m.control i) dead live ≡ go next
      → run apply (repair_slot_with q release i dead live) m
        ≡ run apply (mark q release i live (m.control i) next) m
  unfolding repair_slot_with apply
  begun next hi hd hl v = ground (arith, hi, hd, hl, v)

  exchanged :
      (word next : ℕ)
      → m.control i ≡ word
      → next ≢ word
      → run apply (mark q release i live word next) m
        ≡ run apply (repair_held q release i word) (record m { control = update m.control i next })
  unfolding mark apply
  exchanged word next e ne = ground (arith, e, ne)

  -- The repair, by a lone participant, of a slot that a dead receiver had claimed, when the
  -- storage behind its message is settled, recovers. The slot at the head is available to the
  -- receiver again, with its completeness kept; behind the head its turn moves on by a lap and it
  -- is empty; ahead of the head it is empty at its old turn.
  pub repair_claimed :
      m.control i ≡ claimed_word done dead
      → i < q.capacity
      → dead < participant_capacity
      → live < participant_capacity
      → release (m.value i) dead ≡ true
      → run apply (repair_slot_with q release i dead live) m ≡ (recovered, repaired q done i marked)
  repair_claimed e hi hd hl r =
      begun (claimed_word done dead + (live + 1) * reaper_unit) hi hd hl
        (rw e (asked done dead live hd hl))
      ∙ ap
          (λ w.
            run apply (mark q release i live w (claimed_word done dead + (live + 1) * reaper_unit))
              m)
          e
      ∙ exchanged (claimed_word done dead) _ e (λ k. omega (arith, k))
      ∙ held_lem marked refl r hd

  emptied :
      m.head ≢ m.turn i
      → ltb (wrapping_sub m.head (m.turn i)) half_range ≡ false
      → ((repaired q done i marked).control i ≡ empty_base)
        × ((repaired q done i marked).turn i ≡ m.turn i)
  emptied ne far = (ground (arith, ne, far), ground (arith, ne, far))

  -- A receiver dies holding a slot ahead of the head. Its repair, with the storage settled,
  -- recovers and leaves the slot empty at its old turn; then, when the head has come to the slot
  -- with its word still so, the tail is elsewhere and the receiving side is open, `claim` by a
  -- lone participant answers `Busy` and changes nothing.
  pub stale_claim :
      (n : Memory)
      → m.control i ≡ claimed_word done dead
      → i < q.capacity
      → dead < participant_capacity
      → live < participant_capacity
      → release (m.value i) dead ≡ true
      → m.head ≢ m.turn i
      → ltb (wrapping_sub m.head (m.turn i)) half_range ≡ false
      → index_of q n.head ≡ i
      → n.control i ≡ (run apply (repair_slot_with q release i dead live) m).1.control i
      → n.tail ≢ n.head
      → IsReceiving q n
      → let (answer, m') = run apply (repair_slot_with q release i dead live) m in
        (answer ≡ recovered)
        × (m'.control i ≡ empty_base)
        × (m'.turn i ≡ m.turn i)
        × (run apply (claim q) n ≡ (err ClaimError.busy, n))
  stale_claim n e hi hd hl r ne far at same apart o = (
    ap (λ z. z.0) done_repair,
    ap (λ z. z.1.control i) done_repair ∙ empty_now.0,
    ap (λ z. z.1.turn i) done_repair ∙ empty_now.1,
    busy_claim,
  )
    where
      done_repair :
          run apply (repair_slot_with q release i dead live) m
          ≡ (recovered, repaired q done i marked)
      done_repair = repair_claimed e hi hd hl r

      empty_now :
          ((repaired q done i marked).control i ≡ empty_base)
          × ((repaired q done i marked).turn i ≡ m.turn i)
      empty_now = emptied ne far

      word_now : n.control (index_of q n.head) ≡ empty_base
      word_now = ap n.control at ∙ same ∙ ap (λ z. z.1.control i) done_repair ∙ empty_now.0

      busy_claim : run apply (claim q) n ≡ (err ClaimError.busy, n)
      busy_claim =
          claim-other q n o (rw at hi) (λ k. omega (arith, word_now, k))
            (λ k. omega (arith, word_now, k))
          ∙ rw (ne→== n.tail n.head apart) refl
