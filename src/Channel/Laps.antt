-- ===== src/Channel/Laps.antt =====
-- src/channel.rs: what `Duplex::geometry` gives is what the queues of src/queue.rs rely on.
use evering.Base.{
  ℕ, zero, suc, ◌+◌, ◌-◌, ◌*◌, ◌^◌, ◌≤◌, ◌<◌, ◌≡◌, ◌⊎◌, inl, inr, refl, sym, ap, ◌∙◌, Bool, true,
  false, leb, ◌==◌, if◌then◌else◌, Option, none, some, Result, ok, err, arith, dec_lt, Bool-cases,
  leb→le, leb→lt, pow-add,
}
use native.Mathlib.Nat.{pow-le-pow_right, mul-le-mul_right, two-pow-succ}
use evering.Pool.Layouts.{Layout, isize_max, extend, next_power_of_two, next_power_from}
use evering.Queue.Control.{participant_capacity}
use evering.Queue.Cursors.{IsGeometry}
use evering.Channel.Geometry.{
  GeometryError, Geometry, array_slots, with_lap, with_slots, with_array, geometry, zero_capacity,
  overflow,
}

-- The power of two that doubling ends at.
record Power (n p q : ℕ) : Type 0 where
  pub exponent : ℕ
  pub power : q ≡ 2 ^ exponent
  pub fits : exponent < 64
  pub above : n ≤ q
  pub close : (q < 2 * n) ⊎ (q ≡ p)

picked :
    (b : Bool) (p : ℕ) (rest : Option ℕ) {q : ℕ}
    → (if b then some p else rest) ≡ some q
    → ((b ≡ true) × (p ≡ q)) ⊎ ((b ≡ false) × (rest ≡ some q))
picked true p rest e = inl (refl, ground (arith, e))
picked false p rest e = inr (refl, e)

next_power_from_lem :
    (left j n : ℕ) {q : ℕ}
    → j + left ≡ 64
    → next_power_from left (2 ^ j) n ≡ some q
    → Power n (2 ^ j) q
unfolding next_power_from
next_power_from_lem zero j n h e = absurd (ground (arith, e))
next_power_from_lem (suc left) j n {q} h e =
    elim (picked (leb n (2 ^ j)) (2 ^ j) (next_power_from left (2 * 2 ^ j) n) e) [
      | inl (fit, same) ↦ record {
        exponent = j;
        power = sym same;
        fits = omega (arith, h);
        above = omega (arith, leb→le n (2 ^ j) fit, same);
        close = inr (sym same);
      }
      | inr (small, later) ↦
          let twice : 2 * 2 ^ j ≡ 2 ^ suc j = omega (arith, two-pow-succ j) in
          let w =
            next_power_from_lem left (suc j) n (omega (arith, h))
              (ap (λ x. next_power_from left x n) (sym twice) ∙ later) in
          record {
            exponent = w.exponent;
            power = w.power;
            fits = w.fits;
            above = w.above;
            close = inl (elim w.close [
              | inl less ↦ less
              | inr same ↦ omega (arith, same, twice, leb→lt n (2 ^ j) small)
            ]);
          }
    ]

lap_lem :
    (capacity : ℕ) {q : ℕ}
    → 0 < capacity
    → next_power_of_two (capacity + 1) ≡ some q
    → (k : ℕ) × (q ≡ 2 ^ k) × (capacity < q) × (q < 2 * (capacity + 1))
unfolding next_power_of_two
lap_lem capacity h e =
    let w = next_power_from_lem 64 0 (capacity + 1) refl e in
    (
      w.exponent,
      w.power,
      omega (arith, w.above),
      elim w.close [ inl less ↦ less | inr same ↦ absurd (omega (arith, w.above, same, h)) ],
    )

admitted :
    {A E : Type 0}
    → (b : Bool) (e : E) (rest : Result A E) {g : A} → (if b then err e else rest) ≡ ok g
    → (b ≡ false) × (rest ≡ ok g)
admitted true e rest h = absurd (ground (arith, h))
admitted false e rest h = (refl, h)

array_lem :
    (header : Layout) (capacity : ℕ) (found : Option Layout) {g : Geometry}
    → with_array header capacity found ≡ ok g
    → (array : Layout) × (found ≡ some array) × (with_slots capacity (extend header array) ≡ ok g)
array_lem header capacity none h = absurd (ground (arith, h))
array_lem header capacity (some array) h = (array, refl, h)

lapped :
    (capacity : ℕ) (placed : Layout × ℕ) (found : Option ℕ) {g : Geometry}
    → with_lap capacity placed found ≡ ok g
    → (found ≡ some g.one_lap) × (capacity ≡ g.capacity)
lapped capacity placed none h = absurd (ground (arith, h))
lapped capacity placed (some one_lap) {g} h = (
  ap (λ r. elim r [ ok x ↦ some x.one_lap | _ ↦ none ]) h,
  ap (λ r. elim r [ ok x ↦ x.capacity | _ ↦ capacity ]) h,
)

slots_lem :
    (capacity : ℕ) (found : Option (Layout × ℕ)) {g : Geometry}
    → with_slots capacity found ≡ ok g
    → (next_power_of_two (capacity + 1) ≡ some g.one_lap) × (capacity ≡ g.capacity)
slots_lem capacity none h = absurd (ground (arith, h))
slots_lem capacity (some placed) h =
    let rest = with_lap capacity placed (next_power_of_two (capacity + 1)) in
    let within = admitted (leb (2 ^ 64) (capacity + 1)) overflow rest h in
    lapped capacity placed (next_power_of_two (capacity + 1)) within.1

array_fits :
    (slot : Layout) (count : ℕ) {a : Layout}
    → array_slots slot count ≡ some a
    → slot.size * count ≤ isize_max
array_fits slot count h = elim (Bool-cases (leb (slot.size * count) isize_max)) [
  | inl holds ↦ leb→le (slot.size * count) isize_max holds
  | inr fails ↦ absurd (ground (arith, h, fails))
]

raised : (k : ℕ) → 62 < k → 63 ≤ k
raised k h = omega arith

spare : (k : ℕ) → k ≤ 62 → 2 ≤ 64 - k
spare k h = omega arith

whole : (k : ℕ) → k ≤ 62 → 64 - k + k ≡ 64
whole k h = omega arith

-- Few enough laps fit that the lap number wraps only after four of them.
short : (capacity k : ℕ) → capacity * 16 < 2 ^ 63 → 2 ^ k < 2 * (capacity + 1) → k ≤ 62
short capacity k h less = elim (dec_lt 62 k) [
  | yes long ↦
      absurd (omega (arith, h, less, pow-le-pow_right {n = 2} (omega arith) (raised k long)))
  | no near ↦ omega (arith, near)
]

-- If `Duplex::geometry` returns sizes for slots of at least eight bytes and the owner is a
-- participant, then the queue with those sizes satisfies `IsGeometry`: its capacity is positive
-- and below one lap, one lap divides 2 ^ 64 and the quotient is at least four.
pub geometry-IsGeometry :
    (header slot : Layout) (capacity send_field recv_field owner : ℕ) {g : Geometry}
    → geometry header slot capacity ≡ ok g
    → 8 ≤ slot.size
    → owner < participant_capacity
    → (laps : ℕ) × IsGeometry
        (record {
          capacity = g.capacity;
          one_lap = g.one_lap;
          send_field = send_field;
          recv_field = recv_field;
          owner = owner;
        })
        laps
unfolding geometry
geometry-IsGeometry header slot capacity send_field recv_field owner {g} e wide member =
    let placing = with_array header capacity (array_slots slot (capacity * 2)) in
    let counted : Result Geometry GeometryError =
      if leb (2 ^ 64) (capacity * 2) then err overflow else placing in
    let first = admitted (capacity == 0) zero_capacity counted e in
    let second = admitted (leb (2 ^ 64) (capacity * 2)) overflow placing first.1 in
    let array = array_lem header capacity (array_slots slot (capacity * 2)) second.1 in
    let lap = slots_lem capacity (extend header array.0) array.2 in
    let some_slot : 0 < capacity = ground (arith, first.0) in
    let size = array_fits slot (capacity * 2) array.1 in
    let least = mul-le-mul_right (capacity * 2) wide in
    let power = lap_lem capacity some_slot lap.0 in
    let k = power.0 in
    let top : k ≤ 62 =
      short capacity k (omega (arith, size, least)) (omega (arith, power.1, power.3)) in
    (
      2 ^ (64 - k),
      record {
        some_slot = omega (arith, some_slot, lap.1);
        room = omega (arith, power.2, lap.1);
        laps_fill =
            ap (λ x. 2 ^ (64 - k) * x) power.1
            ∙ sym (pow-add (64 - k) k)
            ∙ ap (λ x. 2 ^ x) (whole k top);
        four_laps = pow-le-pow_right {n = 2} (omega arith) (spare k top);
        member = member;
      },
    )
