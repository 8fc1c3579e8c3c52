-- ===== src/Steps.antt =====
-- Operations on memory that outlives the process that runs them: a sequence of accesses, after any of
-- which the process may die. An access changes the memory and goes on with what it found in it before.
use evering.Base.{ℕ, zero, suc, ◌≡◌, refl, ap, ◌∙◌}

pub data Op (M : Type 0) (A : Type 0) : Type 0 where
  done : A → Op M A
  step : (M → M) → (M → Op M A) → Op M A

infixl 5 ◌>>=◌ ◌>>◌
abbrev pub ◌>>=◌ : {M A B : Type 0} → Op M A → (A → Op M B) → Op M B
done a >>= f = f a
step change k >>= f = step change (λ m. k m >>= f)

abbrev pub ◌>>◌ : {M A B : Type 0} → Op M A → Op M B → Op M B
p >> q = p >>= λ _. q

abbrev pub read : {M A : Type 0} → (M → A) → Op M A
read f = step (λ m. m) (λ m. done (f m))

abbrev pub write : {M : Type 0} → (M → M) → Op M (Unit {0})
write change = step change (λ _. done tt)

abbrev pub run : {M A : Type 0} → Op M A → M → A × M
run (done a) m = (a, m)
run (step change k) m = run (k m) (change m)

-- What the memory is when the process dies after `n` accesses, or after its last one.
unfoldable pub crash : {M A : Type 0} → ℕ → Op M A → M → M
crash zero p m = m
crash (suc n) (done a) m = m
crash (suc n) (step change k) m = crash n (k m) (change m)

-- `P` holds of the memory before the first access, between any two, and after the last.
abbrev pub Throughout : {M A : Type 0} → (M → Type 0) → Op M A → M → Type 0
Throughout P (done a) m = P m
Throughout P (step change k) m = P m × Throughout P (k m) (change m)

pub Throughout-now : {M A : Type 0} (P : M → Type 0) (p : Op M A) (m : M) → Throughout P p m → P m
Throughout-now P (done a) m t = t
Throughout-now P (step change k) m t = t.0

pub Throughout-crash :
    {M A : Type 0} (P : M → Type 0) (p : Op M A) (m : M)
    → Throughout P p m
    → (n : ℕ) → P (crash n p m)
unfolding crash
Throughout-crash P p m t zero = Throughout-now P p m t
Throughout-crash P (done a) m t (suc n) = t
Throughout-crash P (step change k) m t (suc n) = Throughout-crash P (k m) (change m) t.1 n

pub run->>= :
    {M A B : Type 0} (p : Op M A) (f : A → Op M B) (m : M)
    → run (p >>= f) m ≡ (let (a, m') = run p m in run (f a) m')
run->>= (done a) f m = refl
run->>= (step change k) f m = run->>= (k m) f (change m)

-- The rest of an operation, once its first part is known to end.
pub run_then :
    {M A B : Type 0} (p : Op M A) (f : A → Op M B) (m : M) {a : A} {m' : M}
    → run p m ≡ (a, m')
    → run (p >>= f) m ≡ run (f a) m'
run_then p f m e = run->>= p f m ∙ ap (λ z. run (f z.0) z.1) e
