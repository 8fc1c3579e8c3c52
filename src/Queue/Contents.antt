-- ===== src/Queue/Contents.antt =====
-- src/queue.rs: the messages between head and tail, as a list, and what moving a cursor does to it.
use evering.Base.{
  ℕ, zero, suc, ◌+◌, ◌-◌, ◌≤◌, ◌<◌, ◌≡◌, ◌≢◌, refl, sym, ap, ap₂, List, [], ◌∷◌, ◌++◌, arith, ◌==◌,
  if◌then◌else◌, length,
}
use evering.Queue.Memory.{Queue}
use evering.Queue.Cursors.{Cursor, next}
use evering.Queue.Invariant.{Window, IsFilled, IsVacant}

-- How many slots lie between two cursors at most a lap apart.
abbrev pub distance : Queue → Cursor → Cursor → ℕ
distance q h t = if t.lap == h.lap then t.index - h.index else q.capacity - h.index + t.index

module _ (q : Queue) (value : ℕ → ℕ) where
  -- The payloads of `n` slots from the cursor `c` on.
  abbrev pub values : ℕ → Cursor → List ℕ
  values zero c = []
  values (suc n) c = value c.index ∷ values n (next q c)

  pub length-values : (n : ℕ) (c : Cursor) → length (values n c) ≡ n
  length-values zero c = refl
  length-values (suc n) c = ap suc (length-values n (next q c))

module _ (q : Queue) {c t : Cursor} (w : Window c t) (hc : c.index < q.capacity)
    (ht : t.index < q.capacity) where
  pub distance-zero : distance q c t ≡ 0 → (t.lap ≡ c.lap) × (t.index ≡ c.index)
  distance-zero e = ground (arith, w)

  pub distance-le : distance q c t ≤ q.capacity
  distance-le = ground (arith, w)

  pub distance_full : distance q c t ≡ q.capacity → (t.lap ≡ c.lap + 1) × (t.index ≡ c.index)
  distance_full e = ground (arith, w)

  pub IsFilled-head : {n : ℕ} → distance q c t ≡ suc n → IsFilled c t c.index
  IsFilled-head e = ground (arith, w)

  pub Window-tail : {n : ℕ} → distance q c t ≡ suc n → Window (next q c) t
  unfolding next
  Window-tail e = ground (arith, w)

  pub index-tail : (next q c).index < q.capacity
  unfolding next
  index-tail = ground arith

  pub distance-tail : {n : ℕ} → distance q c t ≡ suc n → distance q (next q c) t ≡ n
  unfolding next
  distance-tail e = ground (arith, w)

  pub distance-next : IsVacant c t t.index → distance q c (next q t) ≡ distance q c t + 1
  unfolding next
  distance-next p = ground (arith, w)

  pub IsFilled-tail :
      {n : ℕ} (i : ℕ)
      → i < q.capacity
      → distance q c t ≡ suc n
      → IsFilled (next q c) t i
      → IsFilled c t i
  unfolding next
  IsFilled-tail i hi e p = ground (arith, w)

-- What a moved cursor leaves of the states of the slots.
module _ (q : Queue) {c t : Cursor} (w : Window c t) (hc : c.index < q.capacity)
    (ht : t.index < q.capacity) (i : ℕ) (hi : i < q.capacity) where
  pub IsFilled-back : i ≢ t.index → IsFilled c (next q t) i → IsFilled c t i
  unfolding next
  IsFilled-back ne p = ground (arith, w)

  pub IsVacant-back :
      IsVacant c t t.index → IsVacant c (next q t) i → IsVacant c t i × (i ≢ t.index)
  unfolding next
  IsVacant-back v p = (ground (arith, w), λ e. ground (arith, w, e))

  pub filled-ne : IsFilled c t c.index → IsFilled (next q c) t i → i ≢ c.index
  unfolding next
  filled-ne f p e = ground (arith, w, e)

  pub IsVacant-tail : i ≢ c.index → IsVacant (next q c) t i → IsVacant c t i
  unfolding next
  IsVacant-tail ne p = ground (arith, w)

  pub vacant_not_filled : IsVacant c t i → IsFilled c t i → ⊥
  vacant_not_filled v p = ground (arith, w)

module _ (q : Queue) {t : Cursor} (ht : t.index < q.capacity) where
  -- Only the filled slots count.
  pub values-cong :
      (f g : ℕ → ℕ) (n : ℕ) (c : Cursor)
      → Window c t
      → c.index < q.capacity
      → distance q c t ≡ n
      → ((i : ℕ) → i < q.capacity → IsFilled c t i → f i ≡ g i)
      → values q f n c ≡ values q g n c
  values-cong f g zero c w hc e same = refl
  values-cong f g (suc n) c w hc e same = ap₂ ◌∷◌ (same c.index hc (IsFilled-head q w hc ht e)) (
      values-cong f g n (next q c) (Window-tail q w hc ht e) (index-tail q w hc ht)
        (distance-tail q w hc ht e) (λ i hi p. same i hi (IsFilled-tail q w hc ht i hi e p)))

  at_end : (c : Cursor) → Window c t → c.index < q.capacity → distance q c t ≡ 0 → c.index ≡ t.index
  at_end c w hc e = sym (distance-zero q w hc ht e).1

  -- One slot more is one payload more at the end.
  pub values-snoc :
      (f : ℕ → ℕ) (n : ℕ) (c : Cursor)
      → Window c t
      → c.index < q.capacity
      → distance q c t ≡ n
      → values q f (suc n) c ≡ values q f n c ++ f t.index ∷ []
  values-snoc f zero c w hc e = ap (λ i. f i ∷ []) (at_end c w hc e)
  values-snoc f (suc n) c w hc e =
      ap (λ l. f c.index ∷ l)
        (values-snoc f n (next q c) (Window-tail q w hc ht e) (index-tail q w hc ht)
          (distance-tail q w hc ht e))
