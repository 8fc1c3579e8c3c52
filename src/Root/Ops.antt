-- ===== src/Root/Ops.antt =====
-- src/header.rs, `Root`: a member word is a generation with a state of two bits below it, and every
-- operation is a sequence of loads and compare-and-exchanges of such words.
use evering.Base.{
  ℕ, zero, suc, ◌+◌, ◌-◌, ◌*◌, ◌/◌, ◌%◌, ◌^◌, Bool, false, not, ltb, ◌==◌, if◌then◌else◌, Option,
  none, some,
}
use evering.Atomic.{Prog, ret, ◌>>=◌, ◌>>◌, access}
use evering.Cells.{Access, load, swap}

-- header.rs: usize::BITS - 1
abbrev pub participant_capacity : ℕ
participant_capacity = 63

abbrev pub member_free : ℕ
member_free = 0

abbrev pub member_live : ℕ
member_live = 1

abbrev pub member_dead : ℕ
member_dead = 2

abbrev pub member_retired : ℕ
member_retired = 3

-- usize::MAX >> MEMBER_STATE_BITS
abbrev pub member_generation_max : ℕ
member_generation_max = 2 ^ 62 - 1

pub record Member : Type 0 where
  pub slot : ℕ
  pub generation : ℕ

-- observed & MEMBER_STATE_MASK, and observed >> MEMBER_STATE_BITS
abbrev pub state_of : ℕ → ℕ
state_of observed = observed % 4

abbrev pub generation_of : ℕ → ℕ
generation_of observed = observed / 4

abbrev pub word : Member → ℕ → ℕ
word m state = m.generation * 4 + state

-- The loop of `join` over `left` slots from `slot` on.
unfoldable pub join_from : ℕ → ℕ → Prog Access (Option Member)
join_from zero slot = ret none
join_from (suc left) slot =
    let rest = join_from left (slot + 1) in
    do
      observed ← access (load slot)
      let prior = generation_of observed
      if not (state_of observed == member_free)
          then rest
          else (if prior == member_generation_max
              then (do
                access (
                    swap slot observed
                      (word (record { slot = slot; generation = prior }) member_retired))
                rest)
              else (do
                let joined : Member = record { slot = slot; generation = prior + 1 }
                seen ← access (swap slot observed (word joined member_live))
                if seen == observed then ret (some joined) else rest))

unfoldable pub join : Prog Access (Option Member)
unfolding join_from
join = join_from participant_capacity 0

-- One compare-and-exchange of the member's word, where the slot exists; whether it succeeded.
abbrev pub exchange : Member → ℕ → ℕ → Prog Access Bool
exchange m before after =
    if ltb m.slot participant_capacity
    then (do seen ← access (swap m.slot before after); ret (seen == before))
    else ret false

unfoldable pub leave : Member → Prog Access Bool
leave m = exchange m (word m member_live) (word m member_free)

unfoldable pub mark_dead : Member → Prog Access Bool
mark_dead m = exchange m (word m member_live) (word m member_dead)

unfoldable pub is_dead : Member → Prog Access Bool
is_dead m =
    if ltb m.slot participant_capacity
    then (do observed ← access (load m.slot); ret (observed == word m member_dead))
    else ret false

unfoldable pub release_dead : Member → Prog Access Bool
release_dead m =
    exchange m (word m member_dead)
      (word m (if m.generation == member_generation_max then member_retired else member_free))
