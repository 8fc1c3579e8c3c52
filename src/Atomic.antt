-- ===== src/Atomic.antt =====
-- Programs over shared memory. The sources run every operation as a sequence of atomic accesses
-- (`load`, `store`, `compare_exchange`, `fetch_or`, `fetch_and`), between which other participants
-- may act. `Prog` keeps that sequence apart from the memory; orderings are sequentially consistent.
use evering.Base.{ℕ, suc, ◌≡◌, refl, ap, ◌∙◌}

-- `act a k` makes the access `a` and goes on with what it returned.
pub data Prog (Act : Type 0) (A : Type 0) : Type 0 where
  ret : A → Prog Act A
  act : Act → (ℕ → Prog Act A) → Prog Act A

infixl 5 ◌>>=◌ ◌>>◌
abbrev pub ◌>>=◌ : {Act A B : Type 0} → Prog Act A → (A → Prog Act B) → Prog Act B
ret a >>= f = f a
act x k >>= f = act x (λ r. k r >>= f)

abbrev pub ◌>>◌ : {Act A B : Type 0} → Prog Act A → Prog Act B → Prog Act B
m >> k = m >>= λ _. k

-- One access, and its answer.
abbrev pub access : {Act : Type 0} → Act → Prog Act ℕ
access x = act x ret

module _ {Act S : Type 0} (apply : Act → S → ℕ × S) where
  -- A program with nobody else running.
  abbrev pub run : {A : Type 0} → Prog Act A → S → A × S
  run (ret a) s = (a, s)
  run (act x k) s = let (r, s') = apply x s in run (k r) s'

  pub run->>= :
      {A B : Type 0} (p : Prog Act A) (f : A → Prog Act B) (s : S)
      → run (p >>= f) s ≡ (let (a, s') = run p s in run (f a) s')
  run->>= (ret a) f s = refl
  run->>= (act x k) f s = let (r, s') = apply x s in run->>= (k r) f s'

  -- The rest of a program, once its first part is known to end.
  pub run-first :
      {A B : Type 0} (p : Prog Act A) (f : A → Prog Act B) (s : S) {s' : S} {a : A}
      → run p s ≡ (a, s')
      → run (p >>= f) s ≡ run (f a) s'
  run-first p f s e = run->>= p f s ∙ ap (λ z. run (f z.0) z.1) e

  -- What a program does when the others do `env n` just before its access number `n`.
  abbrev pub exec : {A : Type 0} → (ℕ → S → S) → ℕ → Prog Act A → S → A × S
  exec env n (ret a) s = (a, s)
  exec env n (act x k) s = let (r, s') = apply x (env n s) in exec env (suc n) (k r) s'
