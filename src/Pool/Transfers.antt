-- ===== src/Pool/Transfers.antt =====
-- src/pool.rs: who may use a block. What `detach`, `takeover` and a drop do to its word, and what
-- recovery takes away.
use evering.Base.{
  ℕ, ◌≤◌, ◌<◌, ◌≡◌, ◌≢◌, refl, arith, true, false, some, get_elem?, ok, err, update, update_self,
  if◌then◌else◌, panicked,
}
use evering.Atomic.{run}
use evering.Cells.{Cells, apply}
use evering.Root.Ops.{participant_capacity}
use evering.Pool.State.{local, local_word, free, detached, max_generation}
use evering.Pool.Geometry.{Class, control_at}
use evering.Pool.Blocks.{Pool, Allocation, Token, detach, takeover, drop, release, owned}

-- The token of the block of an allocation of the pool.
abbrev pub token_of : Pool → Allocation → Token
token_of p a = record { pool = p.id; class = a.class; slot = a.slot; generation = a.generation }

abbrev pub released : Allocation → Allocation
released a = record a { live = false }

module _ (p : Pool) (a : Allocation) (c : Class) (s : Cells)
    (ec : get_elem? p.classes a.class ≡ some c) (hm : a.generation ≤ max_generation)
    (ho : p.owner < participant_capacity) where
  detach_mine :
      a.live ≡ true
      → s (control_at c a.slot) ≡ local_word a.generation p.owner
      → run apply (detach p a) s
        ≡ (ok (released a), update s (control_at c a.slot) (detached a.generation))
  unfolding detach local apply
  detach_mine l w = ground (arith, ec, hm, ho, l, w)

  takeover_offered :
      a.live ≡ true
      → a.slot < c.slots
      → 0 < a.generation
      → s (control_at c a.slot) ≡ detached a.generation
      → run apply (takeover p (token_of p a)) s
        ≡ (ok a, update s (control_at c a.slot) (local_word a.generation p.owner))
  unfolding takeover local apply
  takeover_offered l hs hg w = ground (arith, ec, hm, ho, l, w, hs, hg)

  takeover_refused :
      a.slot < c.slots
      → 0 < a.generation
      → s (control_at c a.slot) ≢ detached a.generation
      → run apply (takeover p (token_of p a)) s ≡ (err owned, s)
  unfolding takeover local apply
  takeover_refused hs hg w = ground (arith, ec, hm, ho, w, hs, hg)

  release_mine :
      s (control_at c a.slot) ≡ local_word a.generation p.owner
      → run apply (release p a.class a.slot a.generation) s
        ≡ (ok tt, update s (control_at c a.slot) (free a.generation))
  unfolding release local apply
  release_mine w = ground (arith, ec, hm, ho, w)

  release_other :
      s (control_at c a.slot) ≢ local_word a.generation p.owner
      → run apply (release p a.class a.slot a.generation) s
        ≡ (if p.debug then panicked else ok tt, s)
  unfolding release local apply
  release_other w = ground (arith, ec, hm, ho, w)

module _ (p : Pool) (a : Allocation) (c : Class) (s : Cells) (owner' : ℕ) where
  abbrev pub place : ℕ
  place = control_at c a.slot

  abbrev taker : Pool
  taker = record p { owner = owner' }

  abbrev pub offered : Cells
  offered = update s place (detached a.generation)

  abbrev pub taken_over : Cells
  taken_over = update offered place (local_word a.generation owner')

  -- A live block, whose class and slot exist, whose generation is above zero and fits, and whose
  -- word is local to the first of two participants, is handed over once. Its holder detaches it,
  -- after which its own drop changes nothing; the other participant of the pool takes it over by
  -- its token and holds it as the first did; then a further takeover of the token by the first
  -- holder is refused, its release changes nothing and panics when debug assertions are on, and
  -- the drop by the new holder frees the block.
  pub handed_once :
      get_elem? p.classes a.class ≡ some c
      → a.slot < c.slots
      → 0 < a.generation
      → a.generation ≤ max_generation
      → p.owner < participant_capacity
      → owner' < participant_capacity
      → p.owner ≢ owner'
      → a.live ≡ true
      → s (control_at c a.slot) ≡ local_word a.generation p.owner
      → (run apply (detach p a) s ≡ (ok (released a), offered))
        × (run apply (drop p (released a)) offered ≡ (ok tt, offered))
        × (run apply (takeover taker (token_of p a)) offered ≡ (ok a, taken_over))
        × (taken_over (control_at c a.slot) ≡ local_word a.generation owner')
        × (run apply (takeover p (token_of p a)) taken_over ≡ (err owned, taken_over))
        × (run apply (release p a.class a.slot a.generation) taken_over
            ≡ (if p.debug then panicked else ok tt, taken_over))
        × (run apply (drop taker a) taken_over
            ≡ (ok tt, update taken_over (control_at c a.slot) (free a.generation)))
  unfolding drop
  handed_once e hs hg hm ho ho' ne l w = (
    detach_mine p a c s e hm ho l w,
    refl,
    takeover_offered taker a c offered e hm ho' l hs hg (update_self s place _),
    held,
    takeover_refused p a c taken_over e hm ho hs hg (λ q. omega (arith, held, q)),
    release_other p a c taken_over e hm ho (λ q. omega (arith, held, q, ne)),
    rw l (release_mine taker a c taken_over e hm ho' held),
  )
    where
      held : taken_over place ≡ local_word a.generation owner'
      held = update_self offered place (local_word a.generation owner')
