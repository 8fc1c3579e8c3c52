-- ===== src/Root/Growth.antt =====
-- src/header.rs, `Root`: the order in which the member words may change.
use evering.Base.{ℕ, ◌≤◌, arith, update, ◌<◌, ◌^◌}
use evering.Cells.{Cells}
use evering.Root.Ops.{generation_of}

-- No generation is lower than it was.
abbrev pub Grows : Cells → Cells → Type 0
Grows s s' = (i : ℕ) → generation_of (s i) ≤ generation_of (s' i)

pub Grows-refl : (s : Cells) → Grows s s
Grows-refl s i = omega arith

pub Grows-trans : (a b c : Cells) → Grows a b → Grows b c → Grows a c
Grows-trans a b c f g i = omega (arith, f i, g i)

pub Grows-update :
    (s : Cells) (i x : ℕ) → generation_of (s i) ≤ generation_of x → Grows s (update s i x)
Grows-update s i x h j = ground (arith, h)

-- Every word has 64 bits.
abbrev pub Words : Cells → Type 0
Words s = (i : ℕ) → s i < 2 ^ 64

pub Words-update : (s : Cells) (i x : ℕ) → x < 2 ^ 64 → Words s → Words (update s i x)
Words-update s i x h w j = ground (arith, h, w j)

-- Participants that, before the access number `n`, turn the words `s` into `env n s`: they lower no
-- generation and keep words of 64 bits.
pub record IsFair (env : ℕ → Cells → Cells) : Type 0 where
  pub grows : (n : ℕ) (s : Cells) → Grows s (env n s)
  pub words : (n : ℕ) (s : Cells) → Words s → Words (env n s)
