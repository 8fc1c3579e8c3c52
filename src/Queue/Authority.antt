-- ===== src/Queue/Authority.antt =====
-- src/queue.rs: `Reserved`, `Staged` and `Claim` between the call that made them and the one that
-- spends them. Each of their operations keeps the invariant, whatever the other slots are at.
use evering.Atomic.{run}
use evering.Base.{
  ℕ, ◌≡◌, refl, inl, update, update_self, update_ne, ℕ_discrete, ◌+◌, inr, true, arith, ◌≤◌, ◌∙◌,
  ◌-◌, ap,
}
use evering.Queue.Control.{
  base, producer, owned, source, complete_bit, empty_base, available, complete,
}
use evering.Queue.Memory.{Memory, Queue, wrapping_add, apply}
use evering.Queue.Ops.{Claim, stage, publish, cancel, take, recycle, Reserved, Staged}
use evering.Queue.Cursors.{Cursor, IsGeometry, wrapping_add-encode}
use evering.Queue.ClaimRun.{recycled}
use evering.Queue.Invariant.{
  Inv, Filled, IsReady, SlotInv-move, IsSending, IsTaking, Free, turn_in, lap_at,
}

-- The word that `stage` leaves.
abbrev pub restaged : ℕ → ℕ
restaged word = owned producer true (source word - 1)

staged_word :
    (word : ℕ) → (base (restaged word) ≡ producer) × (complete_bit (restaged word) ≡ complete)
unfolding owned
staged_word word = ground arith

staged_source : (word : ℕ) → 1 ≤ source word → source (restaged word) ≡ source word
unfolding owned
staged_source word h = omega arith

module _ {q : Queue} {laps : ℕ} {h t : Cursor} {m : Memory} (v : Inv q laps h t m) where
  -- A slot of the sender may take any word that stands for a filled slot, and any payload.
  marked-Filled :
      (i word : ℕ) (f : ℕ → ℕ)
      → Filled q laps h t m i
      → IsReady word
      → Filled q laps h t (record m { control = update m.control i word; value = f }) i
  marked-Filled i word f s r = record {
    passed = s.passed;
    turned = s.turned;
    word = rw (update_self m.control i word) r;
  }

  pub marked-Inv :
      (i word : ℕ) (f : ℕ → ℕ)
      → Filled q laps h t m i
      → IsReady word
      → Inv q laps h t (record m { control = update m.control i word; value = f })
  marked-Inv i word f s r = record {
    head_index = v.head_index;
    tail_index = v.tail_index;
    window = v.window;
    head_word = v.head_word;
    tail_word = v.tail_word;
    slots = λ j hj. elim (ℕ_discrete j i) [
      | yes e ↦ rw e (inl (marked-Filled i word f s r))
      | no ne ↦
          SlotInv-move q laps j refl (λ p. p) (λ p. p) (update_ne m.control i j word ne) refl
            (v.slots j hj)
    ];
  }

  freed_turn :
      (c : Claim)
      → IsGeometry q laps
      → IsTaking q laps h t m c
      → c.next_turn ≡ turn_in q laps (lap_at h c.slot) c.slot
  freed_turn c g k =
      k.turn
      ∙ ap (λ x. wrapping_add x q.one_lap) k.claimed.turned
      ∙ wrapping_add-encode g (record { lap = lap_at h c.slot - 1; index = c.slot }) k.inside
      ∙ ap (λ n. turn_in q laps n c.slot) (omega (arith, k.claimed.later))

  freed-Free :
      (c : Claim)
      → IsGeometry q laps
      → IsTaking q laps h t m c
      → Free q laps h t (recycled c m) c.slot
  freed-Free c g k = record {
    passed = k.claimed.passed;
    turned = update_self m.turn c.slot c.next_turn ∙ freed_turn c g k;
    word = update_self m.control c.slot empty_base;
  }

  freed-Inv :
      (c : Claim) → IsGeometry q laps → IsTaking q laps h t m c → Inv q laps h t (recycled c m)
  freed-Inv c g k = record {
    head_index = v.head_index;
    tail_index = v.tail_index;
    window = v.window;
    head_word = v.head_word;
    tail_word = v.tail_word;
    slots = λ j hj. elim (ℕ_discrete j c.slot) [
      | yes e ↦ rw e (inr (inl (freed-Free c g k)))
      | no ne ↦
          SlotInv-move q laps j refl (λ p. p) (λ p. p) (update_ne m.control c.slot j _ ne)
            (update_ne m.turn c.slot j _ ne) (v.slots j hj)
    ];
  }

  -- While the invariant holds, `stage` of a live reservation puts the payload in its slot and
  -- marks it complete, keeps its owner, and the slot is still its sender's; the invariant holds
  -- again.
  pub stage_lem :
      (r : Reserved) (x : ℕ)
      → IsSending q laps h t m r.slot
      → let (s, m') = run apply (stage r x) m in
        (s.slot ≡ r.slot)
        × (m'.value r.slot ≡ x)
        × (complete_bit (m'.control r.slot) ≡ complete)
        × (source (m'.control r.slot) ≡ source (m.control r.slot))
        × Inv q laps h t m'
        × IsSending q laps h t m' r.slot
  unfolding stage apply
  stage_lem r x s = (
    refl,
    update_self m.value r.slot x,
    rw put (staged_word (m.control r.slot)).1,
    rw put (staged_source (m.control r.slot) s.owned_by),
    marked-Inv r.slot _ (update m.value r.slot x) s.filled (inl (staged_word (m.control r.slot)).0),
    record {
      inside = s.inside;
      filled =
          marked-Filled r.slot _ (update m.value r.slot x) s.filled
            (inl (staged_word (m.control r.slot)).0);
      word = rw put (staged_word (m.control r.slot)).0;
      owned_by = rw put (omega (arith, staged_source (m.control r.slot) s.owned_by, s.owned_by));
    },
  )
    where
      put :
          update m.control r.slot (restaged (m.control r.slot)) r.slot ≡ restaged (m.control r.slot)
      put = update_self m.control r.slot (restaged (m.control r.slot))

  -- While the invariant holds, `publish` of a live staged slot makes it available and complete and
  -- touches no payload, and the invariant holds again.
  pub publish_lem :
      (s : Staged)
      → IsSending q laps h t m s.slot
      → let (_, m') = run apply (publish s) m in
        (m'.control s.slot ≡ available + complete) × (m'.value ≡ m.value) × Inv q laps h t m'
  unfolding publish apply
  publish_lem s k =
      (update_self m.control s.slot _, refl, marked-Inv s.slot _ m.value k.filled (inr (inr refl)))

  -- While the invariant holds, `cancel` of a live staged slot gives its payload back and leaves
  -- the slot available and not complete, and the invariant holds again.
  pub cancel_lem :
      (s : Staged)
      → IsSending q laps h t m s.slot
      → let (x, m') = run apply (cancel s) m in
        (x ≡ m.value s.slot) × (m'.control s.slot ≡ available) × Inv q laps h t m'
  unfolding cancel apply
  cancel_lem s k =
      (refl, update_self m.control s.slot _, marked-Inv s.slot _ m.value k.filled (inr (inl refl)))

  -- While the invariant holds, `take` of a live claim returns the message of its slot, which is
  -- then free for the next lap, and the invariant holds again.
  pub take_lem :
      (c : Claim)
      → IsGeometry q laps
      → IsTaking q laps h t m c
      → let (x, m') = run apply (take c) m in
        (x ≡ m.value c.slot) × Free q laps h t m' c.slot × Inv q laps h t m'
  unfolding take recycle apply
  take_lem c g k = (refl, freed-Free c g k, freed-Inv c g k)
