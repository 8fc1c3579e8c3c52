-- ===== src/Mem/Places.antt =====
-- src/mem.rs: where layouts are placed, and that a reservation is committed where it was made.
use native.Mathlib.Nat.{mod-add-div', mod-lt, mod-eq-zero_of_dvd, dvd-mul_left}
use evering.Base.{
  ℕ, ◌+◌, ◌-◌, ◌*◌, ◌/◌, ◌%◌, ◌^◌, ◌≤◌, ◌<◌, ◌≡◌, inl, inr, refl, sym, ap, ap₂, ◌∙◌, false, not,
  ◌||◌, ltb, ◌==◌, if◌then◌else◌, Result, ok, err, panicked, arith, Bool-cases, eq→==, subst,
  and_then,
}
use evering.Header.Fields.{AdmitError, Context}
use evering.Pool.Layouts.{Layout}
use evering.Mem.Map.{
  write_access, contains, Error, Map, checked_add, checked_sub, reserve_checked, reserve, commit,
  no_header, poisoned_composition, arithmetic_overflow,
}
use evering.Mem.Build.{
  Build, Reservation, reserve_in, poison, context_at, settled, commit_at, commit_reserved,
}

-- A layout at an address behind an offset, aligned, within the mapping, and the offset behind it.
pub record Placed (m : Map) (t : Layout) (offset pointer next : ℕ) : Type 0 where
  pub from : m.start + offset ≤ pointer
  pub aligned : pointer % t.align ≡ 0
  pub ends : pointer + t.size ≡ m.start + next
  pub within : next ≤ m.len

abbrev pub Reserves : Map → Layout → ℕ → Result (ℕ × ℕ) Error → Type 0
Reserves m t offset (ok (pointer, next)) = Placed m t offset pointer next
Reserves m t offset (err e) = Unit
Reserves m t offset panicked = ⊥

checked_add_cases :
    (P : Result (ℕ × ℕ) Error → Type 0) (a b : ℕ) (f : ℕ → Result (ℕ × ℕ) Error)
    → P (err arithmetic_overflow)
    → P (f (a + b))
    → P (and_then (checked_add a b) f)
checked_add_cases P a b f fails fits = elim (Bool-cases (ltb (a + b) (2 ^ 64))) [
  | inl e ↦ rw e fits
  | inr e ↦ rw e fails
]

checked_sub_cases :
    (P : Result (ℕ × ℕ) Error → Type 0) (a b : ℕ) (f : ℕ → Result (ℕ × ℕ) Error)
    → P (err arithmetic_overflow)
    → (b ≤ a → P (f (a - b)))
    → P (and_then (checked_sub a b) f)
checked_sub_cases P a b f fails fits = elim (Bool-cases (ltb a b)) [
  | inl e ↦ rw e fails
  | inr e ↦ rw e (fits (ground (arith, e)))
]

round_up_le : (n align : ℕ) → 0 < align → n ≤ (n + (align - 1)) / align * align
round_up_le n align h =
    omega (arith, mod-add-div' (n + (align - 1)) align, mod-lt (n + (align - 1)) h)

round_up_multiple : (n align : ℕ) → n / align * align % align ≡ 0
round_up_multiple n align = mod-eq-zero_of_dvd align (dvd-mul_left align (n / align))

reserve_checked_lem :
    (m : Map) (t : Layout) (offset : ℕ)
    → 0 < t.align
    → Reserves m t offset (reserve_checked m t offset)
unfolding reserve_checked
reserve_checked_lem m t offset pos =
    let P = Reserves m t offset in
    let value = m.start + offset + (t.align - 1) in
    let address = value / t.align * t.align in
    checked_add_cases P m.start offset _ tt (
      checked_add_cases P (m.start + offset) (t.align - 1) _ tt (
        checked_add_cases P address t.size _ tt (
          checked_sub_cases P address m.start _ tt (λ le.
            checked_sub_cases P (address + t.size) m.start _ tt (λ le'.
              elim (Bool-cases (ltb m.len (address + t.size - m.start))) [
                | inl e ↦ rw e tt
                | inr e ↦ rw e (
                    placed address le le' (round_up_le (m.start + offset) t.align pos)
                      (round_up_multiple value t.align) e)
              ])))))
  where
    placed :
        (address : ℕ)
        → m.start ≤ address
        → m.start ≤ address + t.size
        → m.start + offset ≤ address
        → address % t.align ≡ 0
        → ltb m.len (address + t.size - m.start) ≡ false
        → Placed m t offset (m.start + (address - m.start)) (address + t.size - m.start)
    placed address le le' from aligned e =
        let same : m.start + (address - m.start) ≡ address = omega (arith, le) in
        record {
          from = omega (arith, same, from);
          aligned = ap (λ p. p % t.align) same ∙ aligned;
          ends = omega (arith, le, le');
          within = ground (arith, e);
        }

pub reserve_lem :
    (m : Map) (t : Layout) (offset : ℕ) → 0 < t.align → Reserves m t offset (reserve m t offset)
unfolding reserve
reserve_lem m t offset pos = elim (Bool-cases (contains m.access write_access)) [
  | inl e ↦ rw e (reserve_checked_lem m t offset pos)
  | inr e ↦ rw e tt
]

abbrev pub Reserved : Build → Layout → Result Reservation Error → Type 0
Reserved b t (ok r) =
    (b.poisoned ≡ false)
    × Placed b.map t b.offset (b.map.start + r.offset) r.next
    × (reserve b.map t b.offset ≡ ok (b.map.start + r.offset, r.next))
Reserved b t (err e) = Unit
Reserved b t panicked = ⊥

reserve_cases :
    (b : Build) (t : Layout) (answer : Result (ℕ × ℕ) Error)
    → b.poisoned ≡ false
    → reserve b.map t b.offset ≡ answer
    → Reserves b.map t b.offset answer
    → Reserved b t (
        and_then answer
          (λ (pointer, next). ok (record { offset = pointer - b.map.start; next = next })))
reserve_cases b t (err e) live same x = tt
reserve_cases b t panicked live same x = x
reserve_cases b t (ok (pointer, next)) live same x =
    let back : b.map.start + (pointer - b.map.start) ≡ pointer = omega (arith, x.from) in
    (
      live,
      subst (λ p. Placed b.map t b.offset p next) (sym back) x,
      same ∙ ap (λ p. ok (p, next)) (sym back),
    )

pub reserve_in_lem : (b : Build) (t : Layout) → 0 < t.align → Reserved b t (reserve_in b t)
unfolding reserve_in
reserve_in_lem b t pos = elim (Bool-cases b.poisoned) [
  | inl e ↦ rw e tt
  | inr e ↦
      subst
        (λ c. Reserved b t (
          if c
          then err poisoned_composition
          else and_then (reserve b.map t b.offset)
              (λ (pointer, next). ok (record { offset = pointer - b.map.start; next = next }))))
        (sym e)
        (reserve_cases b t (reserve b.map t b.offset) e refl (reserve_lem b.map t b.offset pos))
]

-- A reservation is committed where it was made: the second look at the cursor agrees with the first.
pub commit_reserved_lem {ℓ} :
    {M : Type ℓ} (b : Build) (t : Layout) (r : Reservation)
    (admit : Context → M → Result (Unit {0}) AdmitError × M) (memory : M)
    → Reserved b t (ok r)
    → let pointer = b.map.start + r.offset in
      commit_reserved b t r admit memory
      ≡ settled b pointer r.next (commit b.map admit (context_at b pointer r.offset) memory)
unfolding commit_reserved
commit_reserved_lem b t r admit memory (live, x, same) =
    let pointer = b.map.start + r.offset in
    let kept =
      settled b pointer r.next (commit b.map admit (context_at b pointer r.offset) memory) in
    let agree : (not (pointer - b.map.start == r.offset) || not (r.next == r.next)) ≡ false =
      ap₂ (λ c d. not c || not d) (eq→== (pointer - b.map.start) r.offset (omega arith))
        (eq→== r.next r.next refl) in
    ap
      (λ c.
        if c
        then (err poisoned_composition, b, memory)
        else commit_at b r admit memory (reserve b.map t b.offset))
      live
    ∙ ap (λ a. commit_at b r admit memory a) same
    ∙ ap (λ c. if c then (err no_header, poison b, memory) else kept) agree
