-- ===== src/Examples/QueueRuns.antt =====
-- A direction of src/queue.rs with two slots.
use evering.Queue.ClaimRun.{claimed_memory}
use evering.Queue.Invariant.{Inv, IsSending, IsTaking, Free}
use evering.Base.{◌≡◌, refl, List, [], ◌∷◌, ok, arith, ◌^◌, ◌+◌, true, subst}
use evering.Atomic.{run}
use evering.Queue.Memory.{Queue, Memory, apply}
use evering.Queue.Ops.{reserve, claim, stage, publish, cancel, take, Reserved, Staged, Claim}
use evering.Queue.Cursors.{Cursor, IsGeometry, next}
use evering.Queue.Refine.{fresh, origin, fresh-Quiet, replies_refine, fresh_refines, replies}
use evering.Queue.Fifo
use evering.Queue.Fifo.{Op, send, recv}
use evering.Queue.Reserve.{Reserves, reserve_lem, reserved_memory, is_ok}
use evering.Queue.Take.{Claims, claim_lem}
use evering.Queue.Control.{complete_bit, source, available, complete}
use evering.Queue.Authority.{stage_lem, publish_lem, cancel_lem, take_lem}

abbrev two : Queue
two = record { capacity = 2; one_lap = 4; send_field = 0; recv_field = 2; owner = 5 }

two-IsGeometry : IsGeometry two (2 ^ 62)
two-IsGeometry = record {
  some_slot = omega arith;
  room = omega arith;
  laps_fill = refl;
  four_laps = omega arith;
  member = omega arith;
}

abbrev ops : List Op
ops = recv ∷ send 7 ∷ send 8 ∷ send 9 ∷ recv ∷ send 9 ∷ recv ∷ recv ∷ recv ∷ []

fresh_refines_example : replies two ops fresh ≡ Fifo.replies 2 ops []
fresh_refines_example = fresh_refines two-IsGeometry ops

replies_refine_example : replies two ops fresh ≡ Fifo.replies 2 ops []
replies_refine_example = replies_refine two-IsGeometry ops (fresh-Quiet two-IsGeometry)

reserve_lem_example : Reserves two (2 ^ 62) origin origin fresh (run apply (reserve two) fresh)
reserve_lem_example = reserve_lem two-IsGeometry (fresh-Quiet two-IsGeometry).inv refl

reserved_state :
    {m m' : Memory} {r : Reserved}
    → Reserves two (2 ^ 62) origin origin m (ok r, m')
    → Inv two (2 ^ 62) origin (next two origin) m'
      × IsSending two (2 ^ 62) origin (next two origin) m' r.slot
reserved_state (is_ok a b c d) = (c, d)

one_reserved : run apply (reserve two) fresh ≡ (ok (record { slot = 0 }), reserved_memory two fresh)
unfolding reserve apply
one_reserved = refl

holding :
    Inv two (2 ^ 62) origin (next two origin) (reserved_memory two fresh)
    × IsSending two (2 ^ 62) origin (next two origin) (reserved_memory two fresh) 0
holding =
    reserved_state
      (subst (Reserves two (2 ^ 62) origin origin fresh) one_reserved reserve_lem_example)

abbrev reserved : Memory
reserved = reserved_memory two fresh

abbrev slot0 : Reserved
slot0 = record { slot = 0 }

abbrev staged0 : Staged
staged0 = record { slot = 0 }

abbrev staged : Memory
staged = (run apply (stage slot0 7) reserved).1

abbrev ahead : Cursor
ahead = next two origin

stage_lem_example :
    let (s, m') = run apply (stage slot0 7) reserved in
    (s.slot ≡ slot0.slot)
    × (m'.value slot0.slot ≡ 7)
    × (complete_bit (m'.control slot0.slot) ≡ complete)
    × (source (m'.control slot0.slot) ≡ source (reserved.control slot0.slot))
    × Inv two (2 ^ 62) origin ahead m'
    × IsSending two (2 ^ 62) origin ahead m' slot0.slot
stage_lem_example = stage_lem holding.0 slot0 7 holding.1

cancel_lem_example :
    let (x, m') = run apply (cancel staged0) reserved in
    (x ≡ reserved.value 0) × (m'.control 0 ≡ available) × Inv two (2 ^ 62) origin ahead m'
cancel_lem_example = cancel_lem holding.0 staged0 holding.1

abbrev published : Memory
published = (run apply (publish staged0) staged).1

publish_lem_example :
    let (_, m') = run apply (publish staged0) staged in
    (m'.control 0 ≡ available + complete)
    × (m'.value ≡ staged.value)
    × Inv two (2 ^ 62) origin ahead m'
publish_lem_example = publish_lem stage_lem_example.4 staged0 stage_lem_example.5

claim_lem_example : Claims two (2 ^ 62) origin ahead published (run apply (claim two) published)
unfolding publish stage reserve apply
claim_lem_example = claim_lem two-IsGeometry publish_lem_example.2 refl

taking :
    {m m' : Memory} {c : Claim}
    → Claims two (2 ^ 62) origin ahead m (ok c, m')
    → Inv two (2 ^ 62) (next two origin) ahead m'
      × IsTaking two (2 ^ 62) (next two origin) ahead m' c
taking (Claims.is_ok a b c d) = (c, d)

abbrev claim0 : Claim
claim0 = record { slot = 0; next_turn = 4; initialized = true }

abbrev claimed : Memory
claimed = claimed_memory two true published

one_claimed : run apply (claim two) published ≡ (ok claim0, claimed)
unfolding claim publish stage reserve apply
one_claimed = refl

receiving : Inv two (2 ^ 62) ahead ahead claimed × IsTaking two (2 ^ 62) ahead ahead claimed claim0
receiving =
    taking (subst (Claims two (2 ^ 62) origin ahead published) one_claimed claim_lem_example)

take_lem_example :
    let (x, m') = run apply (take claim0) claimed in
    (x ≡ claimed.value 0) × Free two (2 ^ 62) ahead ahead m' 0 × Inv two (2 ^ 62) ahead ahead m'
take_lem_example = take_lem receiving.0 claim0 two-IsGeometry receiving.1
