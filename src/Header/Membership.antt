-- ===== src/Header/Membership.antt =====
-- src/header.rs: the word of members of an `RcHeader`, one bit for each participant and the highest for a
-- header that is closed.
use evering.Base.{
  ℕ, ◌/◌, ◌%◌, ◌^◌, Bool, not, ◌==◌, if◌then◌else◌, Option, none, some, Result, ok, err,
}
use evering.Atomic.{Prog, ret, ◌>>=◌, ◌>>◌, access}
use evering.Cells.{Access, load, swap, clear, with_bit}
use evering.Header.Fields.{members, AdmitError, CloseError, missing_member, duplicate_member}

-- CLOSED = 1 << (usize::BITS - 1)
abbrev pub closed_bit : ℕ
closed_bit = 63

-- word & (1 << bit) != 0
abbrev pub has_bit : ℕ → ℕ → Bool
has_bit word bit = not (word / 2 ^ bit % 2 == 0)

unfoldable pub close_unique : ℕ → Prog Access (Result (Unit {0}) CloseError)
close_unique slot = do
  observed ← access (swap members (2 ^ slot) (2 ^ closed_bit))
  ret (
      if observed == 2 ^ slot
      then ok tt
      else if has_bit observed closed_bit
      then err CloseError.closed
      else if not (has_bit observed slot)
      then err missing_member
      else err CloseError.contention)

unfoldable pub recover_member : ℕ → Prog Access Bool
recover_member slot = do observed ← access (clear members slot); ret (has_bit observed slot)

unfoldable pub has_member : ℕ → Prog Access Bool
has_member slot = do observed ← access (load members); ret (has_bit observed slot)

unfoldable pub closed_at : Prog Access Bool
closed_at = do observed ← access (load members); ret (has_bit observed closed_bit)

-- AdmitLayout::leave
unfoldable pub leave : ℕ → Prog Access (Unit {0})
leave slot = do access (clear members slot); ret tt

-- A `Membership` is the bit it clears when it is dropped; none for 0.
abbrev pub Membership : Type 0
Membership = Option ℕ

unfoldable pub drop_membership : Membership → Prog Access (Unit {0})
drop_membership none = ret tt
drop_membership (some slot) = do access (clear members slot); ret tt

-- RcHeader::claim
unfoldable pub claim : Option ℕ → Prog Access (Result Membership AdmitError)
claim none = ret (ok none)
claim (some slot) = do
  observed ← access (load members)
  if has_bit observed closed_bit
      then ret (err AdmitError.closed)
      else (if has_bit observed slot then ret (err duplicate_member) else (do
        seen ← access (swap members observed (with_bit observed slot))
        ret (if seen == observed then ok (some slot) else err AdmitError.contention)))
