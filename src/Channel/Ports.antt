-- ===== src/Channel/Ports.antt =====
-- src/channel.rs, `invite` and `adopt`: a port is adopted at most once.
use evering.Root.Ops.{participant_capacity}
use evering.Base.{
  not, ◌||◌, Bool-cases, dec_lt, Result, err, panicked, ◌⊎◌, inl, inr, ◌^◌, refl, ℕ, ◌+◌, ◌*◌, ◌≤◌,
  ◌<◌, ◌≡◌, ◌≢◌, arith, Bool, true, false, none, some, ok, update, suc, ◌-◌, ap, update_self,
}
use evering.Atomic.{exec, run}
use evering.Cells.{Cells, apply}
use evering.Channel.Words.{
  role_word, generation_of, owner_of, is_terminal, pack, next_unowned, max_generation,
}
use evering.Channel.Roles.{Role, Port, adopt, invite, is_mine, InviteError, retired}
use evering.Channel.Release.{rank}

-- No end goes back.
abbrev pub Advances : Cells → Cells → Type 0
Advances s s' = (i : ℕ) → rank (s i) ≤ rank (s' i)

-- What an adoption that succeeds found in the word of its end, and what it put there.
module _ (env : ℕ → Cells → Cells) (fits : Bool) (port : Port) (owner n : ℕ) (s : Cells) where
  claimed : Cells
  claimed = update (env n s) port.role (pack port.generation (some owner) false)

  found :
      (s' : Cells) (r : Role)
      → exec apply env n (adopt fits port owner) s ≡ (ok r, s')
      → env n s port.role ≡ pack port.generation none false
  unfolding adopt role_word apply
  found s' r e = ground (arith, e)

  left :
      (s' : Cells) (r : Role)
      → exec apply env n (adopt fits port owner) s ≡ (ok r, s')
      → env (suc n) claimed ≡ s'
  unfolding adopt role_word apply claimed
  left s' r e = ground (arith, e)

offered : (generation : ℕ) → rank (pack generation none false) ≡ generation * 4
offered generation = ground arith

taken_up :
    (generation owner : ℕ)
    → owner < 63
    → rank (pack generation (some owner) false) ≡ generation * 4 + 1
taken_up generation owner h = ground (arith, h)

module _ (env : ℕ → Cells → Cells) (advances : (n : ℕ) (s : Cells) → Advances s (env n s)) where
  adopted :
      (fits : Bool) (port : Port) (owner n : ℕ) (s s' : Cells) (r : Role)
      → owner < participant_capacity
      → exec apply env n (adopt fits port owner) s ≡ (ok r, s')
      → (rank (s port.role) ≤ port.generation * 4) × (port.generation * 4 < rank (s' port.role))
  unfolding claimed
  adopted fits port owner n s s' r h e = (
    omega (
      arith,
      advances n s port.role,
      ap rank (found env fits port owner n s s' r e),
      offered port.generation,
    ),
    omega (
      arith,
      advances (suc n) (claimed env fits port owner n s) port.role,
      ap rank (update_self (env n s) port.role (pack port.generation (some owner) false)),
      taken_up port.generation owner h,
      ap (λ z. rank (z port.role)) (left env fits port owner n s s' r e),
    ),
  )

  -- A port is adopted at most once: after an adoption by a participant that succeeded, no adoption
  -- of the same port by any owner succeeds, when others move no end back during the calls and in
  -- between.
  pub adopt_once :
      (fits fits' : Bool) (port : Port) (owner owner' n n' : ℕ) (s a s' b : Cells) (r r' : Role)
      → owner < participant_capacity
      → exec apply env n (adopt fits port owner) s ≡ (ok r, a)
      → Advances a s'
      → exec apply env n' (adopt fits' port owner') s' ≢ (ok r', b)
  adopt_once fits fits' port owner owner' n n' s a s' b r r' h e g f = omega (
    arith,
    (adopted fits port owner n s a r h e).1,
    g port.role,
    advances n' s' port.role,
    ap rank (found env fits' port owner' n' s' b r' f),
    offered port.generation,
  )

-- What `invite` finds and does, by its answer.
abbrev pub Invites : Role → Cells → Result Port InviteError × Cells → Type 0
Invites r s (ok port, s') =
    let word = s (1 - r.index) in
    let generation = generation_of word + 1 in
    (is_mine r (s r.index) ≡ true)
    × (is_terminal (s r.index) ≡ false)
    × (owner_of word ≡ none)
    × (is_terminal word ≡ false)
    × (generation ≤ max_generation)
    × (port ≡ record { role = 1 - r.index; generation = generation })
    × (s' ≡ update s (1 - r.index) (pack generation none false))
Invites r s (err InviteError.terminal, s') =
    (s' ≡ s)
    × ((is_mine r (s r.index) ≡ false)
        ⊎ (is_terminal (s r.index) ≡ true)
        ⊎ (is_terminal (s (1 - r.index)) ≡ true))
Invites r s (err InviteError.occupied, s') =
    (s' ≡ s) × (is_terminal (s (1 - r.index)) ≡ false) × (owner_of (s (1 - r.index)) ≢ none)
Invites r s (err retired, s') =
    let word = s (1 - r.index) in
    (is_terminal word ≡ false)
    × (owner_of word ≡ none)
    × (generation_of word ≡ max_generation)
    × (s' ≡ update s (1 - r.index) (pack max_generation none true))
Invites r s (err InviteError.busy, s') = ⊥
Invites r s (panicked, s') = ⊥

owner_cases : (raw : ℕ) → (owner_of raw ≡ none) ⊎ (owner_of raw ≢ none)
owner_cases raw = ground arith

module _ (r : Role) (s : Cells) where
  abbrev word : ℕ
  word = s (1 - r.index)

  not_mine :
      not (is_mine r (s r.index)) || is_terminal (s r.index) ≡ true
      → run apply (invite r) s ≡ (err InviteError.terminal, s)
  unfolding invite apply
  not_mine e = ground (arith, e)

  module _ (e : (not (is_mine r (s r.index)) || is_terminal (s r.index)) ≡ false) where
    ended : is_terminal word ≡ true → run apply (invite r) s ≡ (err InviteError.terminal, s)
    unfolding invite apply
    ended t = ground (arith, e, t)

    taken :
        is_terminal word ≡ false
        → owner_of word ≢ none
        → run apply (invite r) s ≡ (err InviteError.occupied, s)
    unfolding invite apply
    taken t o = ground (arith, e, t, o)

    worn_out :
        is_terminal word ≡ false
        → owner_of word ≡ none
        → generation_of word ≡ max_generation
        → run apply (invite r) s
          ≡ (err retired, update s (1 - r.index) (pack max_generation none true))
    unfolding invite next_unowned role_word apply
    worn_out t o g = ground (arith, e, t, o, g)

    offered_next :
        is_terminal word ≡ false
        → owner_of word ≡ none
        → generation_of word + 1 ≤ max_generation
        → run apply (invite r) s ≡ (
          ok (record { role = 1 - r.index; generation = generation_of word + 1 }),
          update s (1 - r.index) (pack (generation_of word + 1) none false),
        )
    unfolding invite next_unowned role_word apply
    offered_next t o g = ground (arith, e, t, o, g)

  -- `invite` by itself, where the word of the other end has 64 bits, does one of four things. Its
  -- caller owned an open end and the other end was open and unowned with a generation left: the
  -- port is for that end at the next generation, at which it then stands open and unowned. That
  -- end was open and unowned at the last generation: the answer is `Retired`, and it is closed for
  -- good. It was open and owned: `Occupied`. The caller did not own an open end, or the other was
  -- closed: `Terminal`. The last two change nothing.
  pub invite_lem : s (1 - r.index) < 2 ^ 64 → Invites r s (run apply (invite r) s)
  invite_lem small = elim (Bool-cases (not (is_mine r (s r.index)) || is_terminal (s r.index))) [
    | inl e ↦ rw (not_mine e) (refl, ground (arith, e))
    | inr e ↦ elim (Bool-cases (is_terminal word)) [
      | inl t ↦ rw (ended e t) (refl, inr (inr t))
      | inr t ↦ elim (owner_cases word) [
        | inr o ↦ rw (taken e t o) (refl, t, o)
        | inl o ↦ elim (dec_lt (generation_of word) max_generation) [
          | yes l ↦
              rw (offered_next e t o (omega (arith, l)))
                (ground (arith, e), ground (arith, e), o, t, omega (arith, l), refl, refl)
          | no l ↦
              let g : generation_of word ≡ max_generation = omega (arith, l, small) in
              rw (worn_out e t o g) (t, o, g, refl)
        ]
      ]
    ]
  ]
