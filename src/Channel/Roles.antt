-- ===== src/Channel/Roles.antt =====
-- src/channel.rs: what changes a role word: `creator`, `invite`, `adopt`, the drop of a `Role`,
-- and `recover_role`. The cells are the two words of
-- `Duplex::roles`. A loop of exchanges runs for a number of rounds; a spurious failure of
-- `compare_exchange_weak` only repeats a round.
use evering.Base.{
  ℕ, zero, suc, ◌-◌, Bool, true, false, not, ◌&&◌, ◌||◌, leb, ◌==◌, if◌then◌else◌, Option, none,
  some, Result, ok, err,
}
use evering.Atomic.{Prog, ret, ◌>>=◌, ◌>>◌, access}
use evering.Cells.{Access, load, store, swap}
use evering.Channel.Words.{role_word, next_unowned, generation_of, owner_of, is_terminal}

pub data InviteError : Type 0 where
  occupied terminal busy retired : InviteError

pub data RoleAdmitError : Type 0 where
  stale occupied terminal orphaned open_role : RoleAdmitError

pub data CloseError : Type 0 where
  busy evidence : CloseError

-- The fields of a `Role` that say whose it is.
pub record Role : Type 0 where
  pub index : ℕ
  pub generation : ℕ
  pub owner : ℕ

pub record Port : Type 0 where
  pub role : ℕ
  pub generation : ℕ

-- owner == Some(who), and owner.is_some()
abbrev pub owner_is : Option ℕ → ℕ → Bool
owner_is none who = false
owner_is (some owner) who = owner == who

abbrev pub is_some : Option ℕ → Bool
is_some none = false
is_some (some owner) = true

-- `unwrap`, of a word that `new` never refuses here, and `unwrap_or_else`.
abbrev pub word_or : Option ℕ → ℕ → ℕ
word_or none raw = raw
word_or (some raw') raw = raw'

-- RoleWord::new(generation, owner, terminal).unwrap()
abbrev pub made : ℕ → Option ℕ → Bool → ℕ
made generation owner closed = word_or (role_word generation owner closed) 0

-- What an owned word becomes when its owner lets go of it.
unfoldable pub released : ℕ → ℕ
unfolding role_word next_unowned
released raw =
    if is_terminal raw
    then made (generation_of raw) none true
    else word_or (next_unowned raw false) (made (generation_of raw) none true)

-- The loop of exchanges of `Role::drop` and `recover_role`, while `mine` says so; whether it ended.
unfoldable pub release_loop : ℕ → (ℕ → Bool) → ℕ → ℕ → Prog Access Bool
release_loop zero mine index raw = ret false
release_loop (suc rounds) mine index raw = if not (mine raw) then ret true else (do
  seen ← access (swap index raw (released raw))
  elim (seen == raw) [ true ↦ ret true | false ↦ release_loop rounds mine index seen ])

unfoldable pub recover_role : ℕ → ℕ → ℕ → Prog Access Bool
unfolding release_loop
recover_role rounds index dead = do
  raw ← access (load index)
  release_loop rounds (λ raw. owner_is (owner_of raw) dead) index raw

-- generation == self.generation && owner == Some(self.owner)
abbrev pub is_mine : Role → ℕ → Bool
is_mine r raw = (generation_of raw == r.generation) && owner_is (owner_of raw) r.owner

-- Role::drop
unfoldable pub drop_role : ℕ → Role → Prog Access Bool
unfolding release_loop
drop_role rounds r = do raw ← access (load r.index); release_loop rounds (is_mine r) r.index raw

-- Channel::creator
unfoldable pub creator : ℕ → Prog Access Role
unfolding role_word
creator owner = do
  access (store 0 (made 1 (some owner) false))
  access (store 1 (made 1 none false))
  ret (record { index = 0; generation = 1; owner = owner })

unfoldable pub invite : Role → Prog Access (Result Port InviteError)
unfolding role_word next_unowned
invite r = do
  issuer ← access (load r.index)
  if not (is_mine r issuer) || is_terminal issuer then ret (err InviteError.terminal) else (do
    let index = 1 - r.index
    raw ← access (load index)
    if is_terminal raw
        then ret (err InviteError.terminal)
        else (if is_some (owner_of raw)
            then ret (err InviteError.occupied)
            else elim (next_unowned raw false) [
              | none ↦ (do
                seen ← access (swap index raw (made (generation_of raw) none true))
                ret (err (if seen == raw then retired else InviteError.busy)))
              | some next ↦ (do
                seen ← access (swap index raw next)
                ret (
                    if seen == raw
                    then ok (record { role = index; generation = generation_of next })
                    else err InviteError.busy))
            ]))

-- Why an exchange for a port failed, from the word found.
abbrev pub refusal : ℕ → ℕ → RoleAdmitError
refusal generation observed =
    if is_terminal observed
    then RoleAdmitError.terminal
    else if not (generation_of observed == generation)
    then stale
    else if is_some (owner_of observed)
    then RoleAdmitError.occupied
    else open_role

-- Channel::adopt. `fits` says whether the recorded capacity has a geometry that lies inside the
-- mapping, which is asked before any word is touched.
unfoldable pub adopt : Bool → Port → ℕ → Prog Access (Result Role RoleAdmitError)
unfolding role_word released
adopt fits port owner =
    let index = port.role in
    let generation = port.generation in
    if leb 2 index || not fits
    then ret (err open_role)
    else elim (role_word generation none false) [
      | none ↦ ret (err stale)
      | some expected ↦ elim (role_word generation (some owner) false) [
        | none ↦ ret (err open_role)
        | some claimed ↦ (do
          observed ← access (swap index expected claimed)
          if not (observed == expected) then ret (err (refusal generation observed)) else (do
            issuer ← access (load (1 - index))
            if is_terminal issuer || not (is_some (owner_of issuer))
                then (do access (swap index claimed (released claimed)); ret (err orphaned))
                else ret (ok (record { index = index; generation = generation; owner = owner }))))
      ]
    ]
