-- ===== src/Talc/Guards.antt =====
-- src/talc.rs: participants of one heap that claim its mutation word, commit, drop their guard, die
-- with it, and recover the dead.
use evering.Base.{
  ℕ, zero, suc, ◌^◌, ◌<◌, ◌≡◌, refl, ap, ◌∙◌, Bool, true, false, ◌&&◌, ltb, ◌==◌, if◌then◌else◌,
  List, [], ◌∷◌, ok, err, arith,
}
use evering.Talc.Mutation.{
  mutation_clean, mutation_poisoned, owner_word, MutationError, busy, claim, commit, drop,
  poison_owner, clear_dead_owner, settle_dead, mutation_state,
}

-- The word, and the guards that are alive, by the slot of their owner.
pub record Heap : Type 0 where
  pub word : ℕ
  pub guards : List ℕ

pub data Event : Type 0 where
  -- begin_mutation, Mutation::commit, the drop of a guard, and a death with it
  claims commits drops dies : ℕ → Event
  -- poison_owner and clear_dead_owner, called for a slot that is dead
  poisons clears : ℕ → Event

abbrev pub mem : ℕ → List ℕ → Bool
mem o [] = false
mem o (p ∷ ps) = if o == p then true else mem o ps

abbrev pub without : ℕ → List ℕ → List ℕ
without o [] = []
without o (p ∷ ps) = let rest = without o ps in if o == p then ps else p ∷ rest

-- Only a guard commits or is dropped, and only a slot without a living guard is recovered.
unfoldable pub step : Heap → Event → Heap
unfolding claim commit drop poison_owner clear_dead_owner
step h (claims o) = elim (claim o h.word).0 [
  | ok guard ↦ record { word = (claim o h.word).1; guards = guard ∷ h.guards }
  | _ ↦ record h { word = (claim o h.word).1 }
]
step h (commits o) =
    if mem o h.guards then record { word = commit h.word; guards = without o h.guards } else h
step h (drops o) =
    if mem o h.guards then record { word = drop h.word; guards = without o h.guards } else h
step h (dies o) = record h { guards = without o h.guards }
step h (poisons o) = if mem o h.guards then h else record h { word = (poison_owner o h.word).1 }
step h (clears o) = if mem o h.guards then h else record h { word = (clear_dead_owner o h.word).1 }

unfoldable pub steps : Heap → List Event → Heap
unfolding step
steps h [] = h
steps h (e ∷ es) = steps (step h e) es

-- Nobody holds a guard, or one participant does and the word is its own.
abbrev pub Sole : ℕ → List ℕ → Type 0
Sole word [] = Unit {0}
Sole word (o ∷ []) = word ≡ owner_word o
Sole word (o ∷ p ∷ ps) = suc word ≡ zero

pub Exclusive : Heap → Type 0
Exclusive h = Sole h.word h.guards

step-Sole :
    (w : ℕ) (gs : List ℕ) (e : Event)
    → Sole w gs
    → Exclusive (step (record { word = w; guards = gs }) e)
unfolding step claim commit drop poison_owner clear_dead_owner Exclusive
step-Sole w [] (claims o) x = ground arith
step-Sole w [] (commits o) x = tt
step-Sole w [] (drops o) x = tt
step-Sole w [] (dies o) x = tt
step-Sole w [] (poisons o) x = tt
step-Sole w [] (clears o) x = tt
step-Sole w (p ∷ []) (claims o) x = ground arith
step-Sole w (p ∷ []) (commits o) x = ground arith
step-Sole w (p ∷ []) (drops o) x = ground arith
step-Sole w (p ∷ []) (dies o) x = ground arith
step-Sole w (p ∷ []) (poisons o) x = ground arith
step-Sole w (p ∷ []) (clears o) x = ground arith
step-Sole w (o ∷ p ∷ ps) e x = absurd (omega (arith, x))

steps-Sole : (h : Heap) (es : List Event) → Exclusive h → Exclusive (steps h es)
unfolding steps Exclusive
steps-Sole h [] x = x
steps-Sole h (e ∷ es) x = steps-Sole (step h e) es (step-Sole h.word h.guards e x)

Sole-holder :
    (w : ℕ) (gs : List ℕ) (o : ℕ) (others : List ℕ)
    → Sole w gs
    → gs ≡ o ∷ others
    → (others ≡ []) × (w ≡ owner_word o)
Sole-holder w [] o others x e = absurd (ground (arith, e))
Sole-holder w (p ∷ []) o others x e = ground (arith, e)
Sole-holder w (p ∷ q ∷ qs) o others x e = absurd (omega (arith, x))

claim_busy : (w o p : ℕ) → w ≡ owner_word o → o < 2 ^ 8 → claim p w ≡ (err (busy o), w)
unfolding claim
claim_busy w o p e h = ground arith

-- From a heap without guards on, whatever its word and whatever claims, commits, drops, deaths and
-- recoveries come in whatever order: who holds a guard, in a slot below 256, is the only one, the
-- word is its own, and a claim by anybody is refused and names it.
pub guard_alone :
    (w : ℕ) (es : List Event) (o p : ℕ) (others : List ℕ)
    → o < 2 ^ 8
    → (steps (record { word = w; guards = [] }) es).guards ≡ o ∷ others
    → let h = steps (record { word = w; guards = [] }) es in
      (others ≡ []) × (h.word ≡ owner_word o) × (claim p h.word ≡ (err (busy o), h.word))
unfolding Exclusive
guard_alone w es o p others small e =
    let h = steps (record { word = w; guards = [] }) es in
    let (rest, own) =
      Sole-holder h.word h.guards o others (steps-Sole (record { word = w; guards = [] }) es tt)
        e in
    (rest, own, claim_busy h.word o p own small)

abbrev pub slot_of : Event → ℕ
slot_of (claims o) = o
slot_of (commits o) = o
slot_of (drops o) = o
slot_of (dies o) = o
slot_of (poisons o) = o
slot_of (clears o) = o

abbrev pub slots_fit : List Event → Bool
slots_fit [] = true
slots_fit (e ∷ es) = ltb (slot_of e) (2 ^ 8) && slots_fit es

abbrev poisoned_heap : Heap
poisoned_heap = record { word = mutation_poisoned; guards = [] }

poisoned_step : (e : Event) → ltb (slot_of e) (2 ^ 8) ≡ true → step poisoned_heap e ≡ poisoned_heap
unfolding step claim poison_owner clear_dead_owner
poisoned_step (claims o) h = refl
poisoned_step (commits o) h = refl
poisoned_step (drops o) h = refl
poisoned_step (dies o) h = refl
poisoned_step (poisons o) h = ground (arith, h)
poisoned_step (clears o) h = ground (arith, h)

poisoned_steps : (es : List Event) → slots_fit es ≡ true → steps poisoned_heap es ≡ poisoned_heap
unfolding steps
poisoned_steps [] h = refl
poisoned_steps (e ∷ es) h =
    ap (λ k. steps k es) (poisoned_step e (ground (arith, h)))
    ∙ poisoned_steps es (ground (arith, h))

-- A poisoned heap without guards stays so whatever participants of slots below 256 do, recoveries
-- included, and every claim answers that it is poisoned.
poison_stays :
    (es : List Event) (p : ℕ)
    → slots_fit es ≡ true
    → let h = steps (record { word = mutation_poisoned; guards = [] }) es in
      (h ≡ record { word = mutation_poisoned; guards = [] })
      × (claim p h.word ≡ (err MutationError.poisoned, mutation_poisoned))
unfolding claim
poison_stays es p h = let same = poisoned_steps es h in (same, ap (λ k. claim p k.word) same)

-- For slots below 256, `finish_recovery` of a dead slot goes on with a clean and with a poisoned
-- heap and leaves its word; it poisons a heap that the dead slot holds and goes on; and it
-- refuses, and leaves the word, while another slot holds the heap.
settle_dead_lem :
    (dead o : ℕ)
    → dead < 2 ^ 8
    → o < 2 ^ 8
    → (settle_dead dead mutation_clean ≡ (true, mutation_clean))
      × (settle_dead dead mutation_poisoned ≡ (true, mutation_poisoned))
      × (settle_dead dead (owner_word o)
          ≡ (if o == dead then (true, mutation_poisoned) else (false, owner_word o)))
unfolding settle_dead mutation_state poison_owner
settle_dead_lem dead o h h' = (refl, refl, ground arith)
