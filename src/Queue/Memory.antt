-- ===== src/Queue/Memory.antt =====
-- src/queue.rs: the shared cells of one direction (`Header`, the `Slot`s and the lifecycle byte)
-- and the atomic accesses that the operations make. A payload is an opaque number.
use evering.Base.{ℕ, ◌+◌, ◌/◌, ◌%◌, ◌^◌, ◌==◌, if◌then◌else◌, update}

-- `turn`, `control` and `value` are the fields of the slots, by index.
pub record Memory : Type 0 where
  pub head : ℕ
  pub tail : ℕ
  pub lifecycle : ℕ
  pub turn : ℕ → ℕ
  pub control : ℕ → ℕ
  pub value : ℕ → ℕ

-- A handle on one direction: what the trait `Queue` asks of its implementors.
pub record Queue : Type 0 where
  pub capacity : ℕ
  pub one_lap : ℕ
  pub send_field : ℕ
  pub recv_field : ℕ
  pub owner : ℕ

pub data Access : Type 0 where
  load_head load_tail load_lifecycle : Access
  load_turn load_control read_value : ℕ → Access
  store_turn store_control write_value : ℕ → ℕ → Access
  -- place or cell, expected value, new value
  swap_head swap_tail : ℕ → ℕ → Access
  swap_control : ℕ → ℕ → ℕ → Access
  -- fetch_or(1 << bit)
  or_lifecycle : ℕ → Access

-- word | 1 << bit
abbrev pub set_bit : ℕ → ℕ → ℕ
set_bit word bit = if word / 2 ^ bit % 2 == 0 then word + 2 ^ bit else word

-- The answer is the value found; a compare-and-exchange succeeds where it is the expected one.
unfoldable pub apply : Access → Memory → ℕ × Memory
apply load_head m = (m.head, m)
apply load_tail m = (m.tail, m)
apply load_lifecycle m = (m.lifecycle, m)
apply (load_turn i) m = (m.turn i, m)
apply (load_control i) m = (m.control i, m)
apply (read_value i) m = (m.value i, m)
apply (store_turn i v) m = (v, record m { turn = update m.turn i v })
apply (store_control i v) m = (v, record m { control = update m.control i v })
apply (write_value i v) m = (v, record m { value = update m.value i v })
apply (swap_head e n) m = (m.head, if m.head == e then record m { head = n } else m)
apply (swap_tail e n) m = (m.tail, if m.tail == e then record m { tail = n } else m)
apply (swap_control i e n) m =
    (m.control i, if m.control i == e then record m { control = update m.control i n } else m)
apply (or_lifecycle bit) m = (m.lifecycle, record m { lifecycle = set_bit m.lifecycle bit })

abbrev pub word_mod : ℕ
word_mod = 2 ^ 64

-- usize::wrapping_add and wrapping_sub
abbrev pub wrapping_add : ℕ → ℕ → ℕ
wrapping_add a b = (a + b) % word_mod
