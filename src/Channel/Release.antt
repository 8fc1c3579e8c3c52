-- ===== src/Channel/Release.antt =====
-- src/channel.rs, the drop of a `Role` and `recover_role`: what they leave behind, and that the loop
-- of exchanges ends.
use evering.Base.{
  subst, sym, ℕ, zero, suc, ◌+◌, ◌*◌, ◌^◌, ◌<◌, ◌≡◌, ◌≢◌, ◌⊎◌, inl, inr, arith, Bool, true, false,
  Option, none, some, update, Bool-cases, ℕ_discrete,
}
use evering.Atomic.{exec}
use evering.Cells.{Cells, apply}
use evering.Channel.Words.{
  role_word, next_unowned, generation_of, owner_of, is_terminal, pack, max_generation,
}
use evering.Root.Growth.{Words}
use evering.Channel.Roles.{released, release_loop}

-- How far an end has come: within one generation it is unowned, owned, owned and closing, closed.
abbrev pub phase : Option ℕ → Bool → ℕ
phase none false = 0
phase (some owner) false = 1
phase (some owner) true = 2
phase none true = 3

abbrev pub rank : ℕ → ℕ
rank raw = generation_of raw * 4 + phase (owner_of raw) (is_terminal raw)

-- What a word becomes when its owner lets go of it: closed for good if it was to be closed or has no
-- generation left, else open at the next generation.
pub data Gone (raw : ℕ) : ℕ → Type 0 where
  is_closed : is_terminal raw ≡ true → Gone raw (pack (generation_of raw) none true)
  is_retired :
      is_terminal raw ≡ false
      → generation_of raw ≡ max_generation
      → Gone raw (pack (generation_of raw) none true)
  is_advanced :
      is_terminal raw ≡ false
      → generation_of raw < max_generation
      → Gone raw (pack (generation_of raw + 1) none false)

released_cases :
    (raw : ℕ)
    → raw < 2 ^ 64
    → ((is_terminal raw ≡ true) × (released raw ≡ pack (generation_of raw) none true))
      ⊎ ((is_terminal raw ≡ false)
          × (generation_of raw ≡ max_generation)
          × (released raw ≡ pack (generation_of raw) none true))
      ⊎ ((is_terminal raw ≡ false)
          × (generation_of raw < max_generation)
          × (released raw ≡ pack (generation_of raw + 1) none false))
unfolding released role_word next_unowned
released_cases raw h = ground (arith, h)

released-Gone : (raw : ℕ) → raw < 2 ^ 64 → Gone raw (released raw)
released-Gone raw h = elim (released_cases raw h) [
  | inl (t, e) ↦ subst (λ x. Gone raw x) (sym e) (is_closed t)
  | inr (inl (t, g, e)) ↦ subst (λ x. Gone raw x) (sym e) (is_retired t g)
  | inr (inr (t, g, e)) ↦ subst (λ x. Gone raw x) (sym e) (is_advanced t g)
]

-- The words before the exchange number `k`, as long as no exchange has changed them.
abbrev pub others : (ℕ → Cells → Cells) → ℕ → Cells → ℕ → Cells
others env n s zero = s
others env n s (suc k) = others env (suc n) (env n s) k

-- The first `k` exchanges found a word of their own that the others had changed by then.
abbrev pub Lost : (ℕ → Cells → Cells) → (ℕ → Bool) → ℕ → ℕ → Cells → ℕ → Type 0
Lost env mine index n s k =
    (j : ℕ)
    → j < k
    → (mine (others env n s j index) ≡ true)
      × (others env n s (suc j) index ≢ others env n s j index)

-- The loop of a drop or a recovery among others: all rounds were lost; or, after some that were, the
-- word that was seen last was not its own; or it was and stood, and is let go of.
pub data LetGo (env : ℕ → Cells → Cells) (mine : ℕ → Bool) (index n : ℕ) (s : Cells) (rounds : ℕ)
    : Bool × Cells → Type 0 where
  is_out :
      Lost env mine index n s rounds
      → LetGo env mine index n s rounds (false, others env n s rounds)
  is_other :
      (k : ℕ)
      → k < rounds
      → Lost env mine index n s k
      → mine (others env n s k index) ≡ false
      → LetGo env mine index n s rounds (true, others env n s k)
  is_released :
      (k x : ℕ)
      → k < rounds
      → Lost env mine index n s k
      → mine (others env n s k index) ≡ true
      → others env n s (suc k) index ≡ others env n s k index
      → Gone (others env n s k index) x
      → LetGo env mine index n s rounds (true, update (others env n s (suc k)) index x)

module _ (env : ℕ → Cells → Cells) (mine : ℕ → Bool) (index n : ℕ) (s : Cells)
    (e : mine (s index) ≡ true) (l : env n s index ≢ s index) where
  Lost-suc : (k : ℕ) → Lost env mine index (suc n) (env n s) k → Lost env mine index n s (suc k)
  Lost-suc k lost zero h = (e, l)
  Lost-suc k lost (suc j) h = lost j (omega (arith, h))

  LetGo-suc :
      (rounds : ℕ) {r : Bool × Cells}
      → LetGo env mine index (suc n) (env n s) rounds r
      → LetGo env mine index n s (suc rounds) r
  LetGo-suc rounds (is_out lost) = is_out (Lost-suc rounds lost)
  LetGo-suc rounds (is_other k h lost m) = is_other (suc k) (omega (arith, h)) (Lost-suc k lost) m
  LetGo-suc rounds (is_released k x h lost m stood gone) =
      is_released (suc k) x (omega (arith, h)) (Lost-suc k lost) m stood gone

none-Lost :
    (env : ℕ → Cells → Cells) (mine : ℕ → Bool) (index n : ℕ) (s : Cells)
    → Lost env mine index n s 0
none-Lost env mine index n s j h = absurd (omega (arith, h))

module _ (env : ℕ → Cells → Cells) (mine : ℕ → Bool) (index : ℕ) where
  other :
      (rounds n : ℕ) (s : Cells)
      → mine (s index) ≡ false
      → exec apply env n (release_loop (suc rounds) mine index (s index)) s ≡ (true, s)
  unfolding release_loop
  other rounds n s e = ground arith

  lost :
      (rounds n : ℕ) (s : Cells)
      → mine (s index) ≡ true
      → env n s index ≢ s index
      → exec apply env n (release_loop (suc rounds) mine index (s index)) s
        ≡ exec apply env (suc n) (release_loop rounds mine index (env n s index)) (env n s)
  unfolding release_loop apply
  lost rounds n s e l = ground arith

  won :
      (rounds n : ℕ) (s : Cells)
      → mine (s index) ≡ true
      → env n s index ≡ s index
      → exec apply env n (release_loop (suc rounds) mine index (s index)) s
        ≡ (true, update (env n s) index (released (s index)))
  unfolding release_loop apply
  won rounds n s e l = ground arith

  -- Among others that keep words of 64 bits, the loop of a drop or a recovery that began with the
  -- word it read does one of three things. An exchange of it is lost when the word was its own and
  -- the others have changed it by then. Either it runs out of rounds, all of them lost. Or, after
  -- some lost ones, the word that it saw last is not its own, and it ends without a change. Or,
  -- after some lost ones, that word is its own and stands, and in the memory of the others just
  -- that word changes: it is unowned, closed for good if it was to be closed or has no generation
  -- left, else open at the next generation.
  pub release_lem :
      ((n : ℕ) (s : Cells) → Words s → Words (env n s))
      → (rounds n : ℕ) (s : Cells) → Words s
      → LetGo env mine index n s rounds
          (exec apply env n (release_loop rounds mine index (s index)) s)
  unfolding release_loop
  release_lem keeps zero n s w = is_out (none-Lost env mine index n s)
  release_lem keeps (suc rounds) n s w = elim (Bool-cases (mine (s index))) [
    | inr e ↦ rw (other rounds n s e) (is_other 0 (omega arith) (none-Lost env mine index n s) e)
    | inl e ↦ elim (ℕ_discrete (env n s index) (s index)) [
      | no l ↦ rw (lost rounds n s e l) (
          LetGo-suc env mine index n s e l rounds
            (release_lem keeps rounds (suc n) (env n s) (keeps n s w)))
      | yes l ↦ rw (won rounds n s e l) (
          is_released 0 (released (s index)) (omega arith) (none-Lost env mine index n s) e l
            (released-Gone (s index) (w index)))
    ]
  ]
