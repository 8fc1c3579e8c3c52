-- ===== src/Cells.antt =====
-- Arrays of shared machine words (`[AtomicUsize; n]`, one `AtomicU64`), and the atomic accesses that
-- the sources make to them.
use evering.Base.{◌+◌, ◌-◌, ◌/◌, ◌%◌, ◌^◌, ℕ, ◌==◌, if◌then◌else◌, update}

abbrev pub Cells : Type 0
Cells = ℕ → ℕ

-- Place, and for a compare-and-exchange the expected value and the new one.
pub data Access : Type 0 where
  load : ℕ → Access
  store : ℕ → ℕ → Access
  swap : ℕ → ℕ → ℕ → Access
  -- place and bit of a `fetch_and(!(1 << bit))`
  clear : ℕ → ℕ → Access

-- word | 1 << bit, and word & !(1 << bit)
abbrev pub with_bit : ℕ → ℕ → ℕ
with_bit word bit = if word / 2 ^ bit % 2 == 0 then word + 2 ^ bit else word

abbrev pub without_bit : ℕ → ℕ → ℕ
without_bit word bit = if word / 2 ^ bit % 2 == 0 then word else word - 2 ^ bit

-- The answer is the value found; a compare-and-exchange succeeds where it is the expected one.
unfoldable pub apply : Access → Cells → ℕ × Cells
apply (load i) s = (s i, s)
apply (store i v) s = (v, update s i v)
apply (swap i e n) s = (s i, if s i == e then update s i n else s)
apply (clear i bit) s = (s i, update s i (without_bit (s i) bit))
