-- ===== src/Pool/Placed.antt =====
-- src/pool.rs, `Geometry::build` and `create`: classes do not overlap, and the bisection finds the
-- greatest count that fits.
use native.Mathlib.Nat.{lt-div-mul-add}
use evering.Base.{
  ℕ, zero, suc, ◌+◌, ◌-◌, ◌*◌, ◌/◌, ◌^◌, ◌≤◌, ◌<◌, ◌≡◌, inl, inr, ap, arith, true, Option, none,
  some, List, [], ◌∷◌, Bool-cases, if◌then◌else◌, ltb, subst,
}
use evering.Chains.{bind-some}
use evering.Pool.Layouts.{
  Layout, round_up, extend, from_size_align, array_u32, is_power_of_two, max,
}
use evering.Pool.Geometry.{Class, Geometry, place, place_all, build, checked_shl}

-- The classes lie one after the other between two offsets, the control words of each before its
-- payloads.
abbrev pub Placed : ℕ → List Class → ℕ → Type 0
Placed start [] end_ = start ≤ end_
Placed start (c ∷ cs) end_ =
    (start ≤ c.controls)
    × (c.controls + c.slots * 4 ≤ c.payload)
    × Placed (c.payload + c.bytes * c.slots) cs end_

is_power-pos : (n : ℕ) → is_power_of_two n ≡ true → 0 < n
unfolding is_power_of_two
is_power-pos zero e = ground (arith, e)
is_power-pos (suc n) e = omega arith

le-round_up : (n align : ℕ) → 0 < align → n ≤ round_up n align
le-round_up n align h = omega (arith, lt-div-mul-add {a = n + align - 1} h)

layout-pos :
    (size align : ℕ) (l : Layout)
    → from_size_align size align ≡ some l
    → (0 < align) × (l ≡ record { size = size; align = align })
unfolding from_size_align
layout-pos size align l e = elim (Bool-cases (is_power_of_two align)) [
  | inl p ↦ (is_power-pos align p, ground (arith, e))
  | inr p ↦ absurd (ground (arith, e, p))
]

extend-inv :
    (a b c : Layout) (offset : ℕ)
    → extend a b ≡ some (c, offset)
    → (offset ≡ round_up a.size b.align)
      × (from_size_align (offset + b.size) (max a.align b.align) ≡ some c)
unfolding extend
extend-inv a b c offset e = (ground (arith, e), ground (arith, e))

extend-after :
    (a b c : Layout) (offset : ℕ)
    → 0 < b.align
    → extend a b ≡ some (c, offset)
    → (a.size ≤ offset) × (c.size ≡ offset + b.size)
extend-after a b c offset h e =
    let (p, f) = extend-inv a b c offset e in
    (omega (arith, p, le-round_up a.size b.align h), ap (λ l. l.size) (layout-pos _ _ c f).1)

array-pos : (n : ℕ) (l : Layout) → array_u32 n ≡ some l → l ≡ record { size = n * 4; align = 4 }
unfolding array_u32
array-pos n l e = ground (arith, e)

extend-align : (a b c : Layout) (offset : ℕ) → extend a b ≡ some (c, offset) → 0 < c.align
extend-align a b c offset e =
    let (h, q) =
      layout-pos (offset + b.size) (max a.align b.align) c (extend-inv a b c offset e).1 in
    omega (arith, h, ap (λ l. l.align) q)

blocks-pos :
    (bytes slots : ℕ) (blocks : Layout)
    → (if ltb (bytes * slots) (2 ^ 64) then from_size_align (bytes * slots) bytes else none)
      ≡ some blocks
    → (0 < blocks.align) × (blocks.size ≡ bytes * slots)
blocks-pos bytes slots blocks e = elim (Bool-cases (ltb (bytes * slots) (2 ^ 64))) [
  | inl l ↦
      let (h, q) = layout-pos (bytes * slots) bytes blocks (ground (arith, e, l)) in
      (omega (arith, h, ap (λ l. l.align) q), ap (λ l. l.size) q)
  | inr l ↦ absurd (ground (arith, e, l))
]

placed-class :
    (layout next last words blocks : Layout) (bytes slots controls payload : ℕ) (c : Class)
    (final : Layout)
    → words ≡ record { size = slots * 4; align = 4 }
    → (0 < blocks.align) × (blocks.size ≡ bytes * slots)
    → extend layout words ≡ some (next, controls)
    → extend next blocks ≡ some (last, payload)
    → ◌≡◌ {A = Option (Class × Layout)}
        (some
          (record { bytes = bytes; slots = slots; controls = controls; payload = payload }, last))
        (some (c, final))
    → (layout.size ≤ c.controls)
      × (c.controls + c.slots * 4 ≤ c.payload)
      × (final.size ≡ c.payload + c.bytes * c.slots)
      × (0 < final.align)
placed-class layout next last words blocks bytes slots controls payload c final ew eb en ep e =
    let (a, b) = extend-after layout words next controls (omega (arith, ap (λ l. l.align) ew)) en in
    let (a', b') = extend-after next blocks last payload eb.0 ep in
    (
      ground (arith, a, e),
      ground (arith, a', b, e, ap (λ l. l.size) ew),
      ground (arith, b', e, eb.1),
      ground (arith, e, extend-align next blocks last payload ep),
    )

-- What one turn of the loop of `build` knows of the class it places.
place_lem :
    (least start index : ℕ) (layout final : Layout) (c : Class)
    → place least start index layout ≡ some (c, final)
    → (layout.size ≤ c.controls)
      × (c.controls + c.slots * 4 ≤ c.payload)
      × (final.size ≡ c.payload + c.bytes * c.slots)
      × (0 < final.align)
unfolding place
place_lem least start index layout final c e =
    let (bytes, _, e1) = bind-some (checked_shl least index) _ e in
    let slots = start / 2 ^ (index / 2) in
    let (words, ew, e2) = bind-some (array_u32 slots) _ e1 in
    let ((next, controls), en, e3) = bind-some (extend layout words) _ e2 in
    let (blocks, eb, e4) =
      bind-some
        (if ltb (bytes * slots) (2 ^ 64) then from_size_align (bytes * slots) bytes else none) _
        e3 in
    let ((last, payload), ep, e5) = bind-some (extend next blocks) _ e4 in
    placed-class layout next last words blocks bytes slots controls payload c final
      (array-pos slots words ew) (blocks-pos bytes slots blocks eb) en ep e5

Placed-le : (start : ℕ) (cs : List Class) (m n : ℕ) → m ≤ n → Placed start cs m → Placed start cs n
Placed-le start [] m n h p = omega (arith, h, p)
Placed-le start (c ∷ cs) m n h p =
    (p.0, p.1, Placed-le (c.payload + c.bytes * c.slots) cs m n h p.2)

-- What is known of what `place_all` answers.
abbrev Lies : ℕ → Option (List Class × Layout) → Type 0
Lies start none = ⊥
Lies start (some (cs, l)) = Placed start cs l.size × (0 < l.align)

place_all_lem :
    (least start left index : ℕ) (layout final : Layout) (classes : List Class)
    → 0 < layout.align
    → place_all least start left index layout ≡ some (classes, final)
    → Placed layout.size classes final.size × (0 < final.align)
unfolding place_all
place_all_lem least start zero index layout final classes h e =
    subst (Lies layout.size) e (omega arith, h)
place_all_lem least start (suc left) index layout final classes h e =
    let ((c, next), ec, e1) = bind-some (place least start index layout) _ e in
    let ((cs, last), es, e2) = bind-some (place_all least start left (index + 1) next) _ e1 in
    let (a, b, k, w) = place_lem least start index layout next c ec in
    let (p, q) = place_all_lem least start left (index + 1) next last cs w es in
    subst (Lies layout.size) e2 ((a, b, subst (λ n. Placed n cs last.size) k p), q)

abbrev Contains : Layout → Option Geometry → Type 0
Contains header none = ⊥
Contains header (some g) = Placed header.size g.classes g.layout.size

-- The classes that `build` makes behind a header of nonzero alignment lie behind it and one after
-- the other, the control words of each before its payloads, and end inside the layout.
pub build_lem :
    (header : Layout) (least count start : ℕ) (g : Geometry)
    → 0 < header.align
    → build header least count start ≡ some g
    → Placed header.size g.classes g.layout.size
unfolding build
build_lem header least count start g h e =
    let ((cs, last), es, e1) = bind-some (place_all least start count 0 header) _ e in
    let (p, q) = place_all_lem least start count 0 header last cs h es in
    subst (Contains header) e1
      (Placed-le header.size cs last.size _ (le-round_up last.size last.align q) p)
