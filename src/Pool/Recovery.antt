-- ===== src/Pool/Recovery.antt =====
-- src/pool.rs: what a live participant does with the blocks of a dead one.
use evering.Base.{
  ℕ, zero, suc, ◌+◌, Bool, true, false, not, ◌||◌, ltb, ◌==◌, if◌then◌else◌, Option, none, some,
  List, [], ◌∷◌,
}
use evering.Atomic.{Prog, ret, ◌>>=◌, access}
use evering.Cells.{Access, load, swap}
use evering.Pool.State.{free, generation_of, owner_of, is_allocated, canonical}
use evering.Pool.Geometry.{Class, control_at}
use evering.Channel.Roles.{owner_is}

-- The loop on one control word in `Storage::recover`; `false` when the word is not canonical, or when
-- the rounds ran out.
unfoldable pub free_dead : ℕ → ℕ → ℕ → ℕ → Prog Access Bool
unfolding canonical
free_dead zero dead place raw = ret false
free_dead (suc rounds) dead place raw =
    if not (canonical raw)
    then ret false
    else if not (is_allocated raw) || not (owner_is (owner_of raw) dead)
    then ret true
    else (do
      seen ← access (swap place raw (free (generation_of raw)))
      elim (seen == raw) [ true ↦ ret true | false ↦ free_dead rounds dead place seen ])

-- The slots of a class, `left` of them from `slot` on.
unfoldable pub recover_slots : ℕ → ℕ → Class → ℕ → ℕ → Prog Access Bool
unfolding free_dead
recover_slots rounds dead c zero slot = ret true
recover_slots rounds dead c (suc left) slot =
    let rest = recover_slots rounds dead c left (slot + 1) in
    do
      raw ← access (load (control_at c slot))
      fine ← free_dead rounds dead (control_at c slot) raw
      elim fine [ true ↦ rest | false ↦ ret false ]

-- Storage::recover, once the recorded geometry is read back.
unfoldable pub recover : ℕ → ℕ → List Class → Prog Access Bool
unfolding recover_slots
recover rounds dead [] = ret true
recover rounds dead (c ∷ cs) =
    let rest = recover rounds dead cs in
    do fine ← recover_slots rounds dead c c.slots 0; elim fine [ true ↦ rest | false ↦ ret false ]

-- Whether the block is in the hands of somebody other than `owner`.
abbrev pub in_other_hands : Option ℕ → Option ℕ → Bool
in_other_hands none owner = false
in_other_hands (some actual) none = true
in_other_hands (some actual) (some owner) = not (actual == owner)

-- The loop of `release_token` on the control word of the block of the token; `false` also when the
-- rounds ran out.
unfoldable pub free_token : ℕ → ℕ → Option ℕ → ℕ → ℕ → Prog Access Bool
unfolding canonical
free_token zero generation owner place raw = ret false
free_token (suc rounds) generation owner place raw =
    if not (canonical raw) || ltb (generation_of raw) generation
    then ret false
    else if ltb generation (generation_of raw) || not (is_allocated raw)
    then ret true
    else if in_other_hands (owner_of raw) owner
    then ret false
    else (do
      seen ← access (swap place raw (free generation))
      elim (seen == raw) [
        | true ↦ ret true
        | false ↦ free_token rounds generation owner place seen
      ])
