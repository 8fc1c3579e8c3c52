-- ===== src/Queue/Repair.antt =====
-- src/queue.rs, `repair_slot_with`: what a live participant does to a slot that a dead one held.
-- `release` is the closure that the Channel passes: it settles the storage behind a payload.
use evering.Base.{
  ℕ, ◌+◌, ◌-◌, ◌*◌, ◌%◌, ◌^◌, Bool, false, not, ◌&&◌, ◌||◌, leb, ltb, ◌==◌, if◌then◌else◌,
}
use evering.Atomic.{ret, ◌>>=◌, ◌>>◌, access}
use evering.Queue.Control.{
  base, source, reaper, complete_bit, canonical, empty_base, producer, available, consumer,
  reaper_unit, participant_capacity,
}
use evering.Queue.Memory.{
  Queue, load_head, load_tail, load_turn, load_control, read_value, store_turn, store_control,
  swap_control, wrapping_add, word_mod,
}
use evering.Queue.Ops.{Step}

pub data Repair : Type 0 where
  none recovered corrupted : Repair
  busy : ℕ → Repair

-- usize::wrapping_sub
abbrev pub wrapping_sub : ℕ → ℕ → ℕ
wrapping_sub a b = (a + word_mod - b) % word_mod

-- The word that the repairer puts in the slot, or the answer that ends the repair.
pub data Plan : Type 0 where
  go : ℕ → Plan
  stop : Repair → Plan

-- control & !REAPER_MASK, and | (live + 1) << REAPER_SHIFT, on a word whose reaper field is free.
unfoldable pub plan : ℕ → ℕ → ℕ → Plan
plan control dead live =
    if (source control == dead + 1) && (reaper control == live + 1)
    then go control
    else if reaper control == dead + 1
    then go (control - reaper control * reaper_unit + (live + 1) * reaper_unit)
    else if (source control == dead + 1) && (reaper control == 0)
    then go (control + (live + 1) * reaper_unit)
    else if source control == dead + 1
    then stop (busy (reaper control - 1))
    else stop none

-- What a control word asks of the repairer: the checks on the word, and then its plan.
unfoldable pub verdict : ℕ → ℕ → ℕ → Plan
unfolding canonical plan
verdict control dead live =
    if not (canonical control)
    then stop corrupted
    else if not ((base control == producer) || (base control == consumer))
    then stop none
    else plan control dead live

-- 1 << (usize::BITS - 1)
abbrev pub half_range : ℕ
half_range = 2 ^ 63

module _ (q : Queue) (release : ℕ → ℕ → Bool) (index : ℕ) where
  -- `complete != 0 && !release(value, source - 1)`, the read of the value included.
  unfoldable pub stuck_payload : ℕ → Step Bool
  stuck_payload control =
      if complete_bit control == 0
      then ret false
      else (do value ← access (read_value index); ret (not (release value (source control - 1))))

  unfoldable pub repair_producer : ℕ → Step Repair
  unfolding stuck_payload
  repair_producer control = do
    turn ← access (load_turn index)
    tail ← access load_tail
    let distance = wrapping_sub tail turn
    if distance == 0
        then (if not (complete_bit control == 0)
            then ret corrupted
            else (do access (store_control index empty_base); ret recovered))
        else (if ltb distance half_range
            then (do
              stuck ← stuck_payload control
              if stuck
                  then ret corrupted
                  else (do access (store_control index available); ret recovered))
            else ret corrupted)

  unfoldable pub repair_consumer : ℕ → Step Repair
  unfolding stuck_payload
  repair_consumer control = do
    turn ← access (load_turn index)
    head ← access load_head
    if head == turn
        then (do access (store_control index (available + complete_bit control)); ret recovered)
        else (do
          stuck ← stuck_payload control
          if stuck then ret corrupted else (do
            let distance = wrapping_sub head turn
            (if not (distance == 0) && ltb distance half_range
                then (access (store_turn index (wrapping_add turn q.one_lap)) >> ret tt)
                else ret tt)
            access (store_control index empty_base)
            ret recovered))

  unfoldable pub repair_held : ℕ → Step Repair
  unfolding repair_producer repair_consumer
  repair_held control =
      if base control == producer then repair_producer control else repair_consumer control

  -- The exchange that puts the repairer's name on the slot, where it is not there yet.
  unfoldable pub mark : ℕ → ℕ → ℕ → Step Repair
  unfolding repair_held
  mark live control next = if next == control then repair_held control else (do
    found ← access (swap_control index control next)
    if not (found == control) then ret (busy live) else repair_held control)

  unfoldable pub repair_slot_with : ℕ → ℕ → Step Repair
  unfolding mark verdict
  repair_slot_with dead live =
      if leb participant_capacity dead || leb participant_capacity live
      then ret corrupted
      else if not (ltb index q.capacity)
      then ret corrupted
      else (do
        control ← access (load_control index)
        elim (verdict control dead live) [
          | stop answer ↦ ret answer
          | go next ↦ mark live control next
        ])
