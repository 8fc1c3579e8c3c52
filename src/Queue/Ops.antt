-- ===== src/Queue/Ops.antt =====
-- src/queue.rs, the trait `Queue` and the authorities `Reserved`, `Staged` and `Claim`: every
-- operation as the sequence of its atomic accesses.
use evering.Base.{
  ℕ, zero, suc, ◌+◌, ◌-◌, ◌/◌, ◌%◌, ◌^◌, Bool, true, false, not, ◌&&◌, ltb, ◌==◌, if◌then◌else◌,
  Result, ok, err, panicked,
}
use evering.Atomic.{Prog, ret, ◌>>=◌, ◌>>◌, access}
use evering.Queue.Control.{owned, base, source, empty_base, producer, available, consumer, complete}
use evering.Queue.Memory.{
  Queue, Access, load_head, load_tail, load_lifecycle, load_turn, load_control, read_value,
  store_turn, store_control, write_value, swap_head, swap_tail, swap_control, or_lifecycle,
  wrapping_add,
}

pub data ReserveError : Type 0 where
  full busy closed : ReserveError

pub data ClaimError : Type 0 where
  empty busy closed : ClaimError

-- `Reserved` and `Staged` hold the slot's index; that a live one is not `done` is its existence.
pub record Reserved : Type 0 where
  pub slot : ℕ

pub record Staged : Type 0 where
  pub slot : ℕ

pub record Claim : Type 0 where
  pub slot : ℕ
  pub next_turn : ℕ
  pub initialized : Bool

abbrev pub Step : Type 0 → Type 0
Step A = Prog Access A

-- (lifecycle >> field) & 0b11
unfoldable pub field_state : ℕ → Step ℕ
field_state field = do word ← access load_lifecycle; ret (word / 2 ^ field % 4)

-- a | b, of two values of two bits
abbrev pub or_state : ℕ → ℕ → ℕ
or_state a b = (if a % 2 + b % 2 == 0 then 0 else 1) + (if a / 2 % 2 + b / 2 % 2 == 0 then 0 else 2)

-- Reserved::stage, Staged::publish and cancel; Reserved::skip is what dropping it does.
unfoldable pub stage : Reserved → ℕ → Step Staged
unfolding owned
stage r value = do
  access (write_value r.slot value)
  word ← access (load_control r.slot)
  access (store_control r.slot (owned producer true (source word - 1)))
  ret (record { slot = r.slot })

unfoldable pub skip : Reserved → Step (Unit {0})
skip r = do access (store_control r.slot available); ret tt

unfoldable pub publish : Staged → Step (Unit {0})
publish s = do access (store_control s.slot (available + complete)); ret tt

unfoldable pub cancel : Staged → Step ℕ
cancel s = do value ← access (read_value s.slot); access (store_control s.slot available); ret value

-- Claim::recycle; Claim::drop is `recycle`, and Claim::take reads first.
unfoldable pub recycle : Claim → Step (Unit {0})
recycle c = do
  access (store_turn c.slot c.next_turn)
  access (store_control c.slot empty_base)
  ret tt

unfoldable pub take : Claim → Step ℕ
unfolding recycle
take c = do value ← access (read_value c.slot); recycle c; ret value

-- slots[..n].iter().all(|slot| base(slot.control) != owned_base), from index i on
unfoldable pub none_owned : ℕ → ℕ → ℕ → Step Bool
none_owned zero i owned_base = ret true
none_owned (suc n) i owned_base = do
  word ← access (load_control i)
  elim (base word == owned_base) [ true ↦ ret false | false ↦ none_owned n (i + 1) owned_base ]

unfoldable pub close_field : ℕ → Step (Unit {0})
close_field field = do access (or_lifecycle field); ret tt

module _ (q : Queue) where
  open q use {capacity, one_lap, owner}

  unfoldable pub state : Step ℕ
  unfolding field_state
  state = do
    send ← field_state q.send_field
    recv ← field_state q.recv_field
    ret (or_state send recv)

  -- cursor & (one_lap - 1); one_lap is a power of two
  abbrev pub index_of : ℕ → ℕ
  index_of cursor = cursor % one_lap

  -- The cursor after this one: the next index, or the first of the next lap.
  abbrev pub next_cursor : ℕ → ℕ
  next_cursor cursor =
      if ltb (index_of cursor + 1) capacity
      then cursor + 1
      else wrapping_add (cursor - index_of cursor) one_lap

  -- `store` of `word` on the way out of a lost race.
  abbrev pub give_up : {A E : Type 0} → ℕ → ℕ → E → Step (Result A E)
  give_up slot word e = do access (store_control slot word); ret (err e)

  unfoldable pub reserve : Step (Result Reserved ReserveError)
  unfolding state owned
  reserve = do
    gate ← state
    if not (gate == 0) then ret (err ReserveError.closed) else (do
      tail ← access load_tail
      let index = index_of tail
      let new_tail = next_cursor tail
      if not (ltb index capacity) then ret panicked else (do
        found ← access (swap_control index empty_base (owned producer false owner))
        if not (found == empty_base)
            then (do
              head ← access load_head
              ret (err (if wrapping_add head one_lap == tail then full else ReserveError.busy)))
            else (do
              turn ← access (load_turn index)
              again ← (if turn == tail then access load_tail else ret (suc tail))
              if not (again == tail) then give_up index empty_base ReserveError.busy else (do
                gate' ← state
                if not (gate' == 0) then give_up index empty_base ReserveError.closed else (do
                  seen ← access (swap_tail tail new_tail)
                  if not (seen == tail)
                      then give_up index empty_base ReserveError.busy
                      else ret (ok (record { slot = index })))))))

  unfoldable pub claim : Step (Result Claim ClaimError)
  unfolding field_state owned recycle
  claim = do
    gate ← field_state q.recv_field
    if not (gate == 0) then ret (err ClaimError.closed) else (do
      head ← access load_head
      let index = index_of head
      let new = next_cursor head
      if not (ltb index capacity) then ret panicked else (do
        word ← access (load_control index)
        if not (word == available) && not (word == available + complete)
            then (do
              tail ← access load_tail
              ret (err (if tail == head then empty else ClaimError.busy)))
            else (do
              let initialized = word == available + complete
              found ← access (swap_control index word (owned consumer initialized owner))
              if not (found == word) then ret (err ClaimError.busy) else (do
                turn ← access (load_turn index)
                again ← (if turn == head then access load_head else ret (suc head))
                if not (again == head) then give_up index word ClaimError.busy else (do
                  seen ← access (swap_head head new)
                  if not (seen == head) then give_up index word ClaimError.busy else (do
                    let c : Claim = record {
                      slot = index;
                      next_turn = wrapping_add head one_lap;
                      initialized = initialized;
                    }
                    if initialized
                        then ret (ok c)
                        else (do recycle c; ret (err ClaimError.busy))))))))

  unfoldable pub is_empty : Step Bool
  is_empty = do head ← access load_head; tail ← access load_tail; ret (tail == head)

  -- fetch_or(2 << field) sets bit field + 1.
  unfoldable pub finish_field : ℕ → ℕ → Step ℕ
  unfolding field_state none_owned
  finish_field field owned_base = do
    now ← field_state field
    if not (now == 1) then ret now else (do
      clear ← none_owned capacity 0 owned_base
      if not clear then ret now else (do access (or_lifecycle (field + 1)); ret 3))

  unfoldable pub send_closed : Step Bool
  unfolding finish_field
  send_closed = do now ← finish_field q.send_field producer; ret (now == 3)

  unfoldable pub recv_closed : Step Bool
  unfolding finish_field
  recv_closed = do now ← finish_field q.recv_field consumer; ret (now == 3)

  unfoldable pub terminal : Step Bool
  unfolding send_closed recv_closed is_empty
  terminal = do
    received ← recv_closed
    if received then ret true else (do sent ← send_closed; if sent then is_empty else ret false)
