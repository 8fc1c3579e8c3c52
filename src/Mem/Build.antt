-- ===== src/Mem/Build.antt =====
-- src/mem.rs: `Build`, which places one layout after the other.
use evering.Base.{
  ℕ, ◌-◌, Bool, true, not, ◌||◌, ◌==◌, if◌then◌else◌, Result, ok, err, panicked, and_then,
}
use evering.Header.Fields.{AdmitError, Context}
use evering.Pool.Layouts.{Layout}
use evering.Mem.Map.{Error, Map, reserve, commit, no_header, poisoned_composition}

pub record Build : Type 0 where
  pub map : Map
  pub region : ℕ
  pub allow_init : Bool
  pub offset : ℕ
  pub poisoned : Bool

-- Reservation: the offset of the layout and the one behind it.
pub record Reservation : Type 0 where
  pub offset : ℕ
  pub next : ℕ

-- Reservation::remaining_after
abbrev pub remaining_after : Build → Reservation → ℕ
remaining_after b r = b.map.len - r.next

-- Build::reserve
unfoldable pub reserve_in : Build → Layout → Result Reservation Error
unfolding reserve
reserve_in b t =
    if b.poisoned
    then err poisoned_composition
    else and_then (reserve b.map t b.offset)
        (λ (pointer, next). ok (record { offset = pointer - b.map.start; next = next }))

abbrev pub poison : Build → Build
poison b = record b { poisoned = true }

abbrev pub context_at : Build → ℕ → ℕ → Context
context_at b pointer offset = record {
  region = b.region;
  offset = offset;
  allow_init = b.allow_init;
  address = pointer;
}

-- What `commit_reserved` does with the answer of the admission.
abbrev pub settled {ℓ} :
    {M : Type ℓ} → Build → ℕ → ℕ → Result (Unit {0}) Error × M → Result ℕ Error × Build × M
settled b pointer next (ok _, memory) = (ok pointer, record b { offset = next }, memory)
settled b pointer next (err e, memory) = (err e, poison b, memory)
settled b pointer next (panicked, memory) = (panicked, b, memory)

-- Build::commit_reserved
abbrev pub commit_at {ℓ} :
    {M : Type ℓ}
    → Build
    → Reservation
    → (Context → M → Result (Unit {0}) AdmitError × M)
    → M
    → Result (ℕ × ℕ) Error
    → Result ℕ Error × Build × M
commit_at b r admit memory (err e) = (err e, poison b, memory)
commit_at b r admit memory panicked = (panicked, b, memory)
commit_at b r admit memory (ok (pointer, next)) =
    if not (pointer - b.map.start == r.offset) || not (next == r.next)
    then (err no_header, poison b, memory)
    else settled b pointer next (commit b.map admit (context_at b pointer r.offset) memory)

unfoldable pub commit_reserved {ℓ} :
    {M : Type ℓ}
    → Build
    → Layout
    → Reservation
    → (Context → M → Result (Unit {0}) AdmitError × M)
    → M
    → Result ℕ Error × Build × M
unfolding reserve commit
commit_reserved b t r admit memory =
    if b.poisoned
    then (err poisoned_composition, b, memory)
    else commit_at b r admit memory (reserve b.map t b.offset)

-- Build::push
abbrev pub pushed {ℓ} :
    {M : Type ℓ}
    → Build
    → Layout
    → (Context → M → Result (Unit {0}) AdmitError × M)
    → M
    → Result Reservation Error
    → Result ℕ Error × Build × M
pushed b t admit memory (ok r) = commit_reserved b t r admit memory
pushed b t admit memory (err e) = (err e, b, memory)
pushed b t admit memory panicked = (panicked, b, memory)

unfoldable pub push {ℓ} :
    {M : Type ℓ}
    → Build
    → Layout
    → (Context → M → Result (Unit {0}) AdmitError × M)
    → M
    → Result ℕ Error × Build × M
unfolding reserve_in commit_reserved
push b t admit memory = pushed b t admit memory (reserve_in b t)
