-- ===== src/Pool/State.antt =====
-- src/pool.rs, `State`: generation, allocated bit and owner of one block, in 32 bits.
use evering.Base.{
  ℕ, ◌+◌, ◌-◌, ◌*◌, ◌/◌, ◌%◌, ◌^◌, ◌≤◌, ◌<◌, ◌≡◌, arith, Bool, true, false, not, ◌||◌, leb, ◌==◌,
  if◌then◌else◌, Option, none, some,
}
use evering.Root.Ops.{participant_capacity}

-- ALLOCATED = 1 << OWNER_BITS; GENERATION_SHIFT is 7.
abbrev pub allocated_bit : ℕ
allocated_bit = 64

-- u32::MAX >> GENERATION_SHIFT
abbrev pub max_generation : ℕ
max_generation = 2 ^ 25 - 1

-- `<<` on u32 drops what does not fit.
abbrev pub free : ℕ → ℕ
free generation = generation * 2 ^ 7 % 2 ^ 32

abbrev pub local_word : ℕ → ℕ → ℕ
local_word generation owner = generation * 2 ^ 7 + allocated_bit + (owner + 1)

-- State::local
unfoldable pub local : ℕ → ℕ → Option ℕ
local generation owner =
    if not (leb generation max_generation) || leb participant_capacity owner
    then none
    else some (local_word generation owner)

abbrev pub detached : ℕ → ℕ
detached generation = generation * 2 ^ 7 % 2 ^ 32 + allocated_bit

abbrev pub generation_of : ℕ → ℕ
generation_of word = word / 2 ^ 7

abbrev pub owner_of : ℕ → Option ℕ
owner_of word = if word % 64 == 0 then none else some (word % 64 - 1)

abbrev pub is_allocated : ℕ → Bool
is_allocated word = not (word / 64 % 2 == 0)

abbrev pub is_unowned : ℕ → Bool
is_unowned word = word % 64 == 0

unfoldable pub canonical : ℕ → Bool
canonical word = is_allocated word || is_unowned word

-- What a word says.
abbrev pub reading : ℕ → ℕ × Option ℕ × Bool
reading word = (generation_of word, owner_of word, is_allocated word)

-- The three words of a generation that fits and a participant: each is canonical, and reads back
-- as what it was made of; the local one, the greatest, has 32 bits.
State_lem :
    (generation owner : ℕ)
    → generation ≤ max_generation
    → owner < participant_capacity
    → (local generation owner ≡ some (local_word generation owner))
      × (reading (local_word generation owner) ≡ (generation, some owner, true))
      × (reading (detached generation) ≡ (generation, none, true))
      × (reading (free generation) ≡ (generation, none, false))
      × (local_word generation owner < 2 ^ 32)
      × (canonical (local_word generation owner) ≡ true)
      × (canonical (detached generation) ≡ true)
      × (canonical (free generation) ≡ true)
unfolding local canonical
State_lem generation owner h k = (
  ground (arith, h, k),
  ground (arith, h, k),
  ground (arith, h, k),
  ground (arith, h, k),
  ground (arith, h, k),
  ground (arith, h, k),
  ground (arith, h, k),
  ground (arith, h, k),
)
