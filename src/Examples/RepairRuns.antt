-- ===== src/Examples/RepairRuns.antt =====
-- Repairs of src/queue.rs in a direction with two slots: participant 9 has died, participant 3 repairs.
use evering.Queue.Control.{canonical}
use evering.Base.{ℕ, ◌≡◌, refl, arith, Bool, true, err, if◌then◌else◌, ◌==◌}
use evering.Atomic.{run}
use evering.Queue.Memory.{Queue, Memory, apply}
use evering.Queue.Ops.{claim, ClaimError}
use evering.Queue.Repair.{
  recovered, repair_slot_with, mark, repair_held, repair_consumer, stuck_payload, verdict, plan,
}
use evering.Queue.RepairRun.{repaired, marked, repair_claimed, stale_claim}

abbrev two : Queue
two = record { capacity = 2; one_lap = 4; send_field = 0; recv_field = 2; owner = 5 }

abbrev settled : ℕ → ℕ → Bool
settled value owner = true

-- The head is at slot 1 of the first lap; slot 0 has been filled again, for the second lap, and the
-- dead receiver's stale claim holds it.
abbrev stuck : Memory
stuck = record {
  head = 1;
  tail = 5;
  lifecycle = 0;
  turn = λ i. if i == 0 then 4 else 1;
  control = λ i. if i == 0 then 87 else 6;
  value = λ i. 7;
}

repair_claimed_example :
    run apply (repair_slot_with two settled 0 9 3) stuck
    ≡ (recovered, repaired two true 0 (marked two settled 0 true 9 3 stuck))
repair_claimed_example =
    repair_claimed two settled 0 true 9 3 stuck refl (omega arith) (omega arith) (omega arith) refl

-- The receiver has come to the second lap.
abbrev later : Memory
later = record stuck { head = 4; control = λ i. 0 }

stale_claim_example :
    let (answer, m') = run apply (repair_slot_with two settled 0 9 3) stuck in
    (answer ≡ recovered)
    × (m'.control 0 ≡ 0)
    × (m'.turn 0 ≡ 4)
    × (run apply (claim two) later ≡ (err ClaimError.busy, later))
unfolding repair_slot_with mark repair_held repair_consumer stuck_payload verdict plan canonical
    apply
stale_claim_example =
    stale_claim two settled 0 true 9 3 stuck later refl (omega arith) (omega arith) (omega arith)
      refl (λ e. omega (arith, e)) refl refl refl (λ e. omega (arith, e)) refl
