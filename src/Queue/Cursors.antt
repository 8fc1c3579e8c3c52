-- ===== src/Queue/Cursors.antt =====
-- Cursors of src/queue.rs. A cursor counts laps of `one_lap` and an index below the capacity, and
-- wraps at 2 ^ 64; here it stands beside the lap and the index that it encodes.
use native.Mathlib.Nat.{
  mul-add-mod_self_right, mod-eq_of_lt, mod-lt, mod-add-mod, mod_self, mul-add-div_right,
  div-eq_of_lt, add-zero, mul-le-mul_right,
}
use evering.Base.{
  ℕ, ◌+◌, ◌-◌, ◌*◌, ◌/◌, ◌%◌, ◌^◌, ◌≤◌, ◌<◌, ◌≡◌, ◌≢◌, sym, ap, ◌∙◌, inl, inr, false, arith, ltb,
  ltb→lt, ltb→le, Bool-cases, if◌then◌else◌,
}
use evering.Queue.Control.{participant_capacity}
use evering.Queue.Memory.{Queue, wrapping_add}
use evering.Queue.Ops.{index_of, next_cursor}

pub record Cursor : Type 0 where
  pub lap : ℕ
  pub index : ℕ

-- What `Duplex::geometry` gives a queue: `one_lap` exceeds the capacity and divides 2 ^ 64, the
-- quotient being at least four, since an array of slots fits in memory; and the handle's owner is a participant.
pub record IsGeometry (q : Queue) (laps : ℕ) : Type 0 where
  pub some_slot : 0 < q.capacity
  pub room : q.capacity < q.one_lap
  pub laps_fill : laps * q.one_lap ≡ 2 ^ 64
  pub four_laps : 4 ≤ laps
  pub member : q.owner < participant_capacity

unfoldable pub next : Queue → Cursor → Cursor
next q c =
    if ltb (c.index + 1) q.capacity
    then record { lap = c.lap; index = c.index + 1 }
    else record { lap = c.lap + 1; index = 0 }

-- The number that the cell of a cursor holds.
unfoldable pub encode : Queue → ℕ → Cursor → ℕ
encode q laps c = c.lap % laps * q.one_lap + c.index

module _ {q : Queue} {laps : ℕ} (g : IsGeometry q laps) where
  open g use {some_slot, room, laps_fill, four_laps}

  pub index_of-encode : (c : Cursor) → c.index < q.capacity → index_of q (encode q laps c) ≡ c.index
  unfolding encode
  index_of-encode c h =
      mul-add-mod_self_right (c.lap % laps) q.one_lap c.index ∙ mod-eq_of_lt (omega arith)

  encode-lt :
      (c : Cursor) → c.index < q.capacity → encode q laps c + q.one_lap ≤ laps * q.one_lap + c.index
  unfolding encode
  encode-lt c h = grind (arith, mod-lt c.lap {m = laps})

  -- The lap after, counted modulo `laps`.
  abbrev later : ℕ → ℕ
  later x = if ltb (x + 1) laps then x + 1 else 0

  later-mod : (n : ℕ) → (n + 1) % laps ≡ later (n % laps)
  later-mod n = sym (mod-add-mod n laps 1) ∙ elim (Bool-cases (ltb (n % laps + 1) laps)) [
    | inl e ↦ rw e (mod-eq_of_lt (ltb→lt _ _ e))
    | inr e ↦
        rw e (ap (λ k. k % laps) (omega (arith, mod-lt n {m = laps}, ltb→le _ _ e)) ∙ mod_self laps)
  ]

  half_word : q.one_lap + q.one_lap ≤ 2 ^ 64
  half_word = grind (arith, laps_fill, four_laps)

  fits : (x i : ℕ) → x + 1 < laps → i < q.one_lap → x * q.one_lap + i + q.one_lap < laps * q.one_lap
  fits x i h hi = omega (arith, mul-le-mul_right {m = x + 2} {n = laps} q.one_lap (omega arith))

  last : (x : ℕ) → x < laps → ltb (x + 1) laps ≡ false → x + 1 ≡ laps
  last x h e = omega (arith, ltb→le _ _ e)

  wrap_laps :
      (x i : ℕ)
      → x < laps
      → i < q.one_lap
      → wrapping_add (x * q.one_lap + i) q.one_lap ≡ later x * q.one_lap + i
  wrap_laps x i hx hi = elim (Bool-cases (ltb (x + 1) laps)) [
    | inl e ↦ rw e (mod-eq_of_lt (omega (arith, fits x i (ltb→lt _ _ e) hi)) ∙ omega arith)
    | inr e ↦ rw e (omega (arith, half_word, ap (λ k. k * q.one_lap) (last x hx e)))
  ]

  pub wrapping_add-encode :
      (c : Cursor)
      → c.index < q.capacity
      → wrapping_add (encode q laps c) q.one_lap
        ≡ encode q laps (record { lap = c.lap + 1; index = c.index })
  unfolding encode
  wrapping_add-encode c h =
      wrap_laps (c.lap % laps) c.index (mod-lt c.lap (omega arith)) (omega arith)
      ∙ ap (λ k. k * q.one_lap + c.index) (sym (later-mod c.lap))

  drop_index :
      (c : Cursor) → encode q laps c - c.index ≡ encode q laps (record { lap = c.lap; index = 0 })
  unfolding encode
  drop_index c = omega arith

  pub next_cursor-encode :
      (c : Cursor)
      → c.index < q.capacity
      → next_cursor q (encode q laps c) ≡ encode q laps (next q c)
  unfolding next
  next_cursor-encode c h = elim (Bool-cases (ltb (c.index + 1) q.capacity)) [
    | inl e ↦ rw (index_of-encode c h, e) (unfold encode in omega arith)
    | inr e ↦
        rw (index_of-encode c h, e)
          (ap (λ k. wrapping_add k q.one_lap) (drop_index c)
            ∙ wrapping_add-encode (record { lap = c.lap; index = 0 }) some_slot)
  ]

  div-eq : (x i : ℕ) → i < q.one_lap → (x * q.one_lap + i) / q.one_lap ≡ x
  div-eq x i h = mul-add-div_right (omega arith) x i ∙ ap (λ k. x + k) (div-eq_of_lt h) ∙ add-zero x

  pub encode-injective :
      (c d : Cursor)
      → c.index < q.capacity
      → d.index < q.capacity
      → encode q laps c ≡ encode q laps d
      → (c.lap % laps ≡ d.lap % laps) × (c.index ≡ d.index)
  unfolding encode
  encode-injective c d hc hd e = (laps_same, same)
    where
      same : c.index ≡ d.index
      same = sym (index_of-encode c hc) ∙ ap (index_of q) e ∙ index_of-encode d hd

      laps_same : c.lap % laps ≡ d.lap % laps
      laps_same =
          sym (div-eq (c.lap % laps) c.index (omega arith))
          ∙ ap (λ k. k / q.one_lap) e
          ∙ div-eq (d.lap % laps) d.index (omega arith)

  pub lap_differs : (n : ℕ) → (n + 1) % laps ≢ n % laps
  lap_differs n e = ground (arith, later-mod n, e)
