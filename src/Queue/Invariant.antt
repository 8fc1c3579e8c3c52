-- ===== src/Queue/Invariant.antt =====
-- src/queue.rs: what holds of the cells of one direction between two atomic sections. `h` and `t`
-- are the cursors that `head` and `tail` stand for; a slot is filled from the reserve that passes
-- it to the claim that passes it, and vacant otherwise.
use evering.Base.{ℕ, ◌+◌, ◌-◌, ◌≤◌, ◌<◌, ◌≡◌, ◌⊎◌, ltb, if◌then◌else◌, inl, inr}
use evering.Queue.Control.{base, empty_base, producer, available, consumer, complete, source}
use evering.Queue.Memory.{Memory, Queue, wrapping_add}
use evering.Queue.Ops.{Claim}
use evering.Queue.Cursors.{Cursor, encode}

-- `t` is at most one lap ahead of `h`.
abbrev pub Window : Cursor → Cursor → Type 0
Window h t = ((t.lap ≡ h.lap) × (h.index ≤ t.index)) ⊎ ((t.lap ≡ h.lap + 1) × (t.index ≤ h.index))

-- The lap in which the slot `i` is claimed next.
abbrev pub lap_at : Cursor → ℕ → ℕ
lap_at h i = if ltb i h.index then h.lap + 1 else h.lap

abbrev pub IsFilled : Cursor → Cursor → ℕ → Type 0
IsFilled h t i = (lap_at h i < t.lap) ⊎ ((lap_at h i ≡ t.lap) × (i < t.index))

abbrev pub IsVacant : Cursor → Cursor → ℕ → Type 0
IsVacant h t i = (t.lap < lap_at h i) ⊎ ((lap_at h i ≡ t.lap) × (t.index ≤ i))

abbrev pub IsReady : ℕ → Type 0
IsReady word = (base word ≡ producer) ⊎ (word ≡ available) ⊎ (word ≡ available + complete)

module _ (q : Queue) (laps : ℕ) where
  abbrev pub turn_in : ℕ → ℕ → ℕ
  turn_in lap i = encode q laps (record { lap = lap; index = i })

  -- A filled slot: its sender still holds it, or it waits for the receiver.
  pub record Filled (h t : Cursor) (m : Memory) (i : ℕ) : Type 0 where
    pub passed : IsFilled h t i
    pub turned : m.turn i ≡ turn_in (lap_at h i) i
    pub word : IsReady (m.control i)

  -- A vacant slot that the next lap may reserve.
  pub record Free (h t : Cursor) (m : Memory) (i : ℕ) : Type 0 where
    pub passed : IsVacant h t i
    pub turned : m.turn i ≡ turn_in (lap_at h i) i
    pub word : m.control i ≡ empty_base

  -- A vacant slot that the receiver has claimed and not recycled.
  pub record Claimed (h t : Cursor) (m : Memory) (i : ℕ) : Type 0 where
    pub passed : IsVacant h t i
    pub later : 1 ≤ lap_at h i
    pub turned : m.turn i ≡ turn_in (lap_at h i - 1) i
    pub word : base (m.control i) ≡ consumer

  abbrev pub SlotInv : Cursor → Cursor → Memory → ℕ → Type 0
  SlotInv h t m i = Filled h t m i ⊎ Free h t m i ⊎ Claimed h t m i

  pub record Inv (h t : Cursor) (m : Memory) : Type 0 where
    pub head_index : h.index < q.capacity
    pub tail_index : t.index < q.capacity
    pub window : Window h t
    pub head_word : m.head ≡ encode q laps h
    pub tail_word : m.tail ≡ encode q laps t
    pub slots : (i : ℕ) → i < q.capacity → SlotInv h t m i

-- A slot whose cells did not change stays in its state when the cursors move without passing it.
module _ (q : Queue) (laps : ℕ) {h t h' t' : Cursor} {m m' : Memory} (i : ℕ) where
  pub SlotInv-move :
      lap_at h' i ≡ lap_at h i
      → (IsFilled h t i → IsFilled h' t' i)
      → (IsVacant h t i → IsVacant h' t' i)
      → m'.control i ≡ m.control i
      → m'.turn i ≡ m.turn i
      → SlotInv q laps h t m i
      → SlotInv q laps h' t' m' i
  SlotInv-move l f w c u (inl s) =
      inl (record { passed = f s.passed; turned = rw (l, u) s.turned; word = rw c s.word })
  SlotInv-move l f w c u (inr (inl s)) =
      inr (inl (record { passed = w s.passed; turned = rw (l, u) s.turned; word = rw c s.word }))
  SlotInv-move l f w c u (inr (inr s)) = inr (
      inr (record {
        passed = w s.passed;
        later = rw l s.later;
        turned = rw (l, u) s.turned;
        word = rw c s.word;
      }))

-- The slot of a live `Reserved` or `Staged`: filled, and in the hands of its sender.
pub record IsSending (q : Queue) (laps : ℕ) (h t : Cursor) (m : Memory) (i : ℕ) : Type 0 where
  pub inside : i < q.capacity
  pub filled : Filled q laps h t m i
  pub word : base (m.control i) ≡ producer
  pub owned_by : 1 ≤ source (m.control i)

-- The slot of a live `Claim`, which knows the turn to leave behind.
pub record IsTaking (q : Queue) (laps : ℕ) (h t : Cursor) (m : Memory) (c : Claim) : Type 0 where
  pub inside : c.slot < q.capacity
  pub claimed : Claimed q laps h t m c.slot
  pub turn : c.next_turn ≡ wrapping_add (m.turn c.slot) q.one_lap
