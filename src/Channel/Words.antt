-- ===== src/Channel/Words.antt =====
-- src/channel.rs, `RoleWord`: generation, owner and terminal bit of one end, packed in a word.
use evering.Base.{
  ℕ, ◌+◌, ◌-◌, ◌*◌, ◌/◌, ◌%◌, ◌^◌, ◌≤◌, ◌<◌, ◌≡◌, arith, Bool, true, false, not, leb, ltb, ◌==◌,
  if◌then◌else◌, Option, none, some,
}
use evering.Root.Ops.{participant_capacity}

-- ROLE_GENERATION_SHIFT is 7: usize::MAX >> 7
abbrev pub max_generation : ℕ
max_generation = 2 ^ 57 - 1

abbrev pub slot_of : Option ℕ → ℕ
slot_of none = 0
slot_of (some participant) = participant + 1

-- Whether the owner, if there is one, is a participant.
abbrev pub is_participant : Option ℕ → Bool
is_participant none = true
is_participant (some participant) = ltb participant participant_capacity

-- The three fields are disjoint, so `|` of them is their sum.
abbrev pub pack : ℕ → Option ℕ → Bool → ℕ
pack generation participant terminal =
    generation * 2 ^ 7 + slot_of participant * 2 + (if terminal then 1 else 0)

-- RoleWord::new
unfoldable pub role_word : ℕ → Option ℕ → Bool → Option ℕ
role_word generation participant terminal =
    if not (leb generation max_generation)
    then none
    else if is_participant participant
    then some (pack generation participant terminal)
    else none

-- RoleWord::parts
abbrev pub generation_of : ℕ → ℕ
generation_of raw = raw / 2 ^ 7

abbrev pub owner_of : ℕ → Option ℕ
owner_of raw = let slot = raw / 2 % 64 in if slot == 0 then none else some (slot - 1)

abbrev pub is_terminal : ℕ → Bool
is_terminal raw = not (raw % 2 == 0)

unfoldable pub parts : ℕ → ℕ × Option ℕ × Bool
parts raw = (generation_of raw, owner_of raw, is_terminal raw)

-- `checked_add` overflows past 2 ^ 64 - 1; the generation of a word is below 2 ^ 57.
unfoldable pub next_unowned : ℕ → Bool → Option ℕ
unfolding role_word
next_unowned raw terminal =
    if ltb (generation_of raw + 1) (2 ^ 64)
    then role_word (generation_of raw + 1) none terminal
    else none

-- A word made of a generation that fits and of a participant, or nobody, has 64 bits, and `parts`
-- reads back what `new` put in.
role_word-parts :
    (generation : ℕ) (participant : Option ℕ) (terminal : Bool)
    → generation ≤ max_generation
    → is_participant participant ≡ true
    → (role_word generation participant terminal ≡ some (pack generation participant terminal))
      × (parts (pack generation participant terminal) ≡ (generation, participant, terminal))
      × (pack generation participant terminal < 2 ^ 64)
unfolding role_word parts
role_word-parts generation none true h k = (ground arith, ground arith, omega (arith, h))
role_word-parts generation none false h k = (ground arith, ground arith, omega (arith, h))
role_word-parts generation (some participant) true h k =
    (ground arith, ground arith, ground (arith, k, h))
role_word-parts generation (some participant) false h k =
    (ground arith, ground arith, ground (arith, k, h))

-- Every word of 64 bits is the one that `new` makes of its parts.
parts-role_word :
    (raw : ℕ)
    → raw < 2 ^ 64
    → let (generation, participant, terminal) = parts raw in
      role_word generation participant terminal ≡ some raw
unfolding role_word parts
parts-role_word raw h = ground arith
