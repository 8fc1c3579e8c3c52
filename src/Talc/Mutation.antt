-- ===== src/Talc/Mutation.antt =====
-- src/talc.rs: the word that says who is changing the heap, a compare-and-exchange lock that a crash
-- leaves behind as evidence. Each operation is one atomic access to the word; it answers the word too.
use evering.Base.{ℕ, ◌+◌, ◌-◌, ◌%◌, ◌^◌, Bool, true, false, ◌==◌, if◌then◌else◌, Result, ok, err}

abbrev pub mutation_clean : ℕ
mutation_clean = 0

abbrev pub mutation_poisoned : ℕ
mutation_poisoned = 2 ^ 64 - 1

abbrev pub owner_word : ℕ → ℕ
owner_word slot = slot + 1

pub data MutationError : Type 0 where
  busy : ℕ → MutationError
  poisoned exhausted layout_overflow : MutationError

pub data MutationState : Type 0 where
  clean : MutationState
  owned : ℕ → MutationState
  poisoned : MutationState

-- (owner - 1) as u8
abbrev pub word_slot : ℕ → ℕ
word_slot word = (word - 1) % 2 ^ 8

-- Mutation::claim; the guard that it answers is the owner's slot.
unfoldable pub claim : ℕ → ℕ → Result ℕ MutationError × ℕ
claim owner word =
    if word == mutation_clean
    then (ok owner, owner_word owner)
    else if word == mutation_poisoned
    then (err MutationError.poisoned, word)
    else (err (busy (word_slot word)), word)

-- Mutation::commit, and the drop of a guard that was not committed
unfoldable pub commit : ℕ → ℕ
commit word = mutation_clean

unfoldable pub drop : ℕ → ℕ
drop word = mutation_poisoned

-- poison_mutation
unfoldable pub poison_owner : ℕ → ℕ → Bool × ℕ
poison_owner owner word =
    if word == owner_word owner then (true, mutation_poisoned) else (false, word)

unfoldable pub clear_dead_owner : ℕ → ℕ → Bool × ℕ
clear_dead_owner owner word =
    if word == owner_word owner then (true, mutation_clean) else (word == mutation_clean, word)

unfoldable pub mutation_state : ℕ → MutationState
mutation_state word =
    if word == mutation_clean
    then MutationState.clean
    else if word == mutation_poisoned
    then MutationState.poisoned
    else owned (word_slot word)

-- MapTalc::finish_recovery, up to the removal of the member from the header: whether it goes on, and
-- the word it leaves.
unfoldable pub settle_dead : ℕ → ℕ → Bool × ℕ
unfolding mutation_state poison_owner
settle_dead dead word = elim (mutation_state word) [
  | owned owner ↦
      if owner == dead
      then (let (won, word') = poison_owner dead word in
          if won then (true, word') else (elim (mutation_state word') [
            | MutationState.poisoned ↦ (true, word')
            | _ ↦ (false, word')
          ]))
      else (false, word)
  | _ ↦ (true, word)
]
