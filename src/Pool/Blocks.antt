-- ===== src/Pool/Blocks.antt =====
-- src/pool.rs: what takes, hands on and gives back the blocks of a pool. The cells are the control
-- words, by their offset from the base; a loop of exchanges runs for a number of rounds.
use evering.Base.{
  ℕ, zero, suc, ◌+◌, ◌-◌, ◌*◌, ◌%◌, ◌^◌, Bool, true, false, not, ◌&&◌, leb, ltb, ◌==◌,
  if◌then◌else◌, Option, none, some, List, [], ◌∷◌, length, get_elem?, Result, ok, err, panicked,
}
use evering.Atomic.{Prog, ret, ◌>>=◌, access}
use evering.Cells.{Access, load, swap}
use evering.Pool.State.{
  local, free, detached, generation_of, is_allocated, canonical, max_generation,
}
use evering.Pool.Layouts.{Layout, next_power_of_two, ilog2, max}
use evering.Pool.Geometry.{Class, control_at, payload_at}

-- What a PoolRef works with: the classes, whose pool it is, and the participant; and whether debug
-- assertions are on.
pub record Pool : Type 0 where
  pub classes : List Class
  pub id : ℕ
  pub owner : ℕ
  pub debug : Bool

pub record Allocation : Type 0 where
  pub class : ℕ
  pub slot : ℕ
  pub generation : ℕ
  pub live : Bool

pub data ReserveError : Type 0 where
  block_too_large unavailable : ReserveError

pub data AdoptError : Type 0 where
  pool span type owned : AdoptError

-- A pointer: dangling, with the alignment for its address, or an offset from the base.
pub data Pointer : Type 0 where
  dangling offset : ℕ → Pointer

-- Allocation::empty
abbrev pub empty_allocation : Allocation
empty_allocation = record { class = 0; slot = 0; generation = 0; live = false }

pub data Probe : Type 0 where
  taken : Allocation → ℕ → Probe
  missed : Probe

-- The inner loop of `claim`: `left` slots of a class, from the given probe on.
unfoldable pub probe_from : ℕ → Class → ℕ → ℕ → ℕ → ℕ → Prog Access Probe
unfolding local canonical
probe_from owner c class start zero probe = ret missed
probe_from owner c class start (suc left) probe =
    let rest = probe_from owner c class start left (probe + 1) in
    let slot = (start + probe) % c.slots in
    do
      word ← access (load (control_at c slot))
      -- saturating_add never saturates: the generation has 25 bits.
      let generation = generation_of word + 1
      elim (local generation owner) [
        | none ↦ rest
        | some mine ↦
            if not
              (canonical word && not (is_allocated word) && ltb (generation_of word) max_generation)
            then rest
            else (do
              seen ← access (swap (control_at c slot) word mine)
              if seen == word
                  then ret (
                      taken
                        (record {
                          class = class;
                          slot = slot;
                          generation = generation;
                          live = true;
                        })
                        (payload_at c slot))
                  else rest)
      ]

-- The outer loop: the classes from the index `class` on; a class of no slot panics.
unfoldable pub claim_from :
    ℕ → ℕ → List Class → Prog Access (Result (Allocation × Pointer) ReserveError)
unfolding probe_from
claim_from owner class [] = ret (err unavailable)
claim_from owner class (c ∷ cs) =
    let rest = claim_from owner (class + 1) cs in
    let start = class * 40503 % 2 ^ 64 % c.slots in
    if c.slots == 0 then ret panicked else (do
      found ← probe_from owner c class start c.slots 0
      elim found [ taken a at ↦ ret (ok (a, offset at)) | missed ↦ rest ])

abbrev pub skip : ℕ → List Class → List Class
skip zero cs = cs
skip (suc n) [] = []
skip (suc n) (c ∷ cs) = skip n cs

-- PoolRef::claim; a pool of no class panics.
unfoldable pub claim : Pool → Layout → Prog Access (Result (Allocation × Pointer) ReserveError)
unfolding claim_from next_power_of_two ilog2
claim p layout =
    if layout.size == 0
    then ret (ok (empty_allocation, dangling layout.align))
    else elim (next_power_of_two (max layout.size layout.align)) [
      | none ↦ ret (err block_too_large)
      | some needed ↦ elim (get_elem? p.classes 0) [
        | none ↦ ret panicked
        | some first ↦
            let preferred = ilog2 (max needed first.bytes) - ilog2 first.bytes in
            if leb (length p.classes) preferred
            then ret (err block_too_large)
            else claim_from p.owner preferred (skip preferred p.classes)
      ]
    ]

-- One exchange in the block of an allocation, from a word that `State::local` answered; whether it
-- succeeded. `none` is the panic of `classes[class]`, or of the `unwrap` of the word.
abbrev pub exchange : Pool → ℕ → ℕ → Option ℕ → ℕ → Prog Access (Option Bool)
exchange p class slot before after = elim (get_elem? p.classes class) [
  | none ↦ ret none
  | some c ↦ elim before [
    | none ↦ ret none
    | some word ↦ (do
      seen ← access (swap (control_at c slot) word after)
      ret (some (seen == word)))
  ]
]

-- The end of `release`: a debug assertion that the exchange succeeded.
abbrev pub asserted : Bool → Option Bool → Result (Unit {0}) (Unit {0})
asserted debug none = panicked
asserted debug (some true) = ok tt
asserted debug (some false) = if debug then panicked else ok tt

-- PoolRef::release, and Allocation::drop, which calls it for a live allocation.
unfoldable pub release : Pool → ℕ → ℕ → ℕ → Prog Access (Result (Unit {0}) (Unit {0}))
unfolding local
release p class slot generation = do
  done ← exchange p class slot (local generation p.owner) (free generation)
  ret (asserted p.debug done)

unfoldable pub drop : Pool → Allocation → Prog Access (Result (Unit {0}) (Unit {0}))
unfolding release
drop p a = if a.live then release p a.class a.slot a.generation else ret (ok tt)

-- The end of `detach`, which leaves the allocation not live.
abbrev pub let_go : Allocation → Option Bool → Result Allocation AdoptError
let_go a none = panicked
let_go a (some true) = ok (record a { live = false })
let_go a (some false) = err owned

-- Allocation::detach
unfoldable pub detach : Pool → Allocation → Prog Access (Result Allocation AdoptError)
unfolding local
detach p a = if not a.live then ret (ok a) else (do
  done ← exchange p a.class a.slot (local a.generation p.owner) (detached a.generation)
  ret (let_go a done))

-- The fields of a token that name its block.
pub record Token : Type 0 where
  pub pool : ℕ
  pub class : ℕ
  pub slot : ℕ
  pub generation : ℕ

-- PoolRef::takeover
unfoldable pub takeover : Pool → Token → Prog Access (Result Allocation AdoptError)
unfolding local
takeover p t =
    if t.generation == 0
    then ret (if t.pool == p.id then ok empty_allocation else err AdoptError.pool)
    else if ltb max_generation t.generation
    then ret (err owned)
    else if not (t.pool == p.id)
    then ret (err AdoptError.pool)
    else elim (get_elem? p.classes t.class) [
      | none ↦ ret (err span)
      | some c ↦ if leb c.slots t.slot then ret (err span) else elim (local t.generation p.owner) [
        | none ↦ ret panicked
        | some mine ↦ (do
          seen ← access (swap (control_at c t.slot) (detached t.generation) mine)
          ret (
              if seen == detached t.generation
              then ok (record {
                class = t.class;
                slot = t.slot;
                generation = t.generation;
                live = true;
              })
              else err owned))
      ]
    ]
