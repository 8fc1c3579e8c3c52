-- ===== src/Directory/CreateCrash.antt =====
-- src/dir.rs: `create_in` from the reserved slot on, and `recover` after a death.
use evering.Base.{
  not, ◌||◌, ◌==◌, eq→==, ℕ, ◌+◌, ◌^◌, ◌<◌, ◌≡◌, refl, sym, ◌∙◌, true, false, Option, none, some,
  Result, ok, err, panicked, arith, subst, and_then, ap, not, ◌==◌, ◌||◌,
}
use evering.Steps.{
  ◌>>=◌, read, done, Throughout-now, done, Throughout, Throughout-crash, crash, ◌>>◌,
}
use evering.Directory.Memory.{
  stale, held, generation_of, owner_word, ProjectionError, Error, Memory, Region, clean, stale,
}
use evering.Directory.Lookup.{
  without_slab, u32_max, slab, entry, scan, Slot, reservable, slot_of, reserve, in_transition,
  transition,
}
use evering.Directory.Transaction.{claim_transaction, set_transaction, commit}
use evering.Directory.Create.{build, fill}
use evering.Directory.Crash.{Target}
use evering.Directory.Enter.{if_false}
use evering.Directory.Grow.{create_in, claiming, reserving}
use evering.Directory.Creation.{Good-clean, untouched, Recovers}
use evering.Directory.CreateStart.{build-Good}
use evering.Directory.Scan.{reserve_found, scan_entry}

pub transition_none :
    (x : Result (Option (ℕ × ℕ × ℕ)) Error) → and_then x without_slab ≡ ok none → x ≡ ok none
transition_none (ok none) e = refl
transition_none (ok (some (index, place, i))) e = absurd (ground (arith, e))
transition_none (err x) e = absurd (ground (arith, e))
transition_none panicked e = absurd (ground (arith, e))

fill-Good :
    (r : Region) (live owner index place i size align : ℕ)
    (admitted : Result (Unit {0}) ProjectionError) (m : Memory)
    → Target r live owner index place i m
    → m.transaction ≡ owner_word owner held
    → Throughout
        (Recovers r live owner m (place, i) (generation_of (m.state place i) + 1))
        (fill r owner size align admitted (slot_of m (index, place, i)))
        m
unfolding fill slab
fill-Good r live owner index place i size align admitted m t e =
    let good = build-Good t size align admitted e in
    let at = (scan_entry reservable r m u32_max 0 0 index place i refl t.found).0 in
    (
      Throughout-now (Recovers r live owner m (place, i) (generation_of (m.state place i) + 1))
          (build r owner (slot_of m (index, place, i)) (place, i) size align admitted) m good,
      subst
          (λ x.
            Throughout (Recovers r live owner m (place, i) (generation_of (m.state place i) + 1))
              (elim x [
                | ok at ↦ build r owner (slot_of m (index, place, i)) at size align admitted
                | err e ↦ commit owner held >> done (err e)
                | panicked ↦ done panicked
              ])
              m)
          (sym at) good,
    )

-- `create_in` from the memory in which nobody holds the transaction, `m` being the one once it is
-- claimed.
create_in-Good :
    (r : Region) (live owner index place i size align : ℕ)
    (admitted : Result (Unit {0}) ProjectionError) (m : Memory)
    → Target r live owner index place i m
    → m.transaction ≡ owner_word owner held
    → reserve r m ≡ ok (slot_of m (index, place, i))
    → Throughout
        (Recovers r live owner m (place, i) (generation_of (m.state place i) + 1))
        (create_in r owner true size align admitted)
        (set_transaction clean m)
unfolding create_in claim_transaction
create_in-Good r live owner index place i size align admitted m t e taken =
    subst (λ p. Throughout Good p (set_transaction clean m))
      (sym (
        if_false (not (r.id == r.heap_id) || not true) (done (err stale))
          (claim_transaction owner >>= claiming r owner size align admitted)
          (ap (λ b. not b || not true) (eq→== r.id r.heap_id t.same_region))))
      (
        Good-clean t (set_transaction clean m) refl (untouched refl refl),
        subst (λ z. Throughout Good (read (reserve r) >>= reserving r owner size align admitted) z)
            back
            (
              Throughout-now Good (fill r owner size align admitted (slot_of m (index, place, i))) m
                  filled,
              subst (λ x. Throughout Good (reserving r owner size align admitted x) m) (sym taken)
                  filled,
            ),
      )
  where
    Good : Memory → Type 0
    Good = Recovers r live owner m (place, i) (generation_of (m.state place i) + 1)

    filled : Throughout Good (fill r owner size align admitted (slot_of m (index, place, i))) m
    filled = fill-Good r live owner index place i size align admitted m t e

    back : m ≡ set_transaction (owner_word owner held) (set_transaction clean m)
    back = ap (λ w. record m { transaction = w }) e

-- `m` is the memory once a participant below 256 has claimed the transaction of a directory
-- without entries in transition, whose words have 64 bits, and `reserve` finds there a slot whose
-- entry is `at`. After whichever access of `create_in`, begun before the claim, the participant
-- dies, and whatever the allocator and `admit_at` answered, recovery by any other leaves no
-- transaction. The entries are then as they were, and no block was allocated, or it was given
-- back, or the heap is poisoned; or the entry is published at the next generation, with its block;
-- or it is quarantined. Debug assertions are on.
pub create-Recovers :
    (r : Region) (live owner size align n : ℕ) (admitted : Result (Unit {0}) ProjectionError)
    (m : Memory) (slot : Slot) (at : ℕ × ℕ)
    → r.id ≡ r.heap_id
    → r.debug ≡ true
    → owner < 2 ^ 8
    → ((q k : ℕ) → m.state q k < 2 ^ 64)
    → ((q k : ℕ) → in_transition (m.state q k) ≡ false)
    → transition r m ≡ ok none
    → m.transaction ≡ owner_word owner held
    → reserve r m ≡ ok slot
    → entry r m slot.slab slot.entry ≡ ok at
    → Recovers r live owner m at slot.generation
        (crash n (create_in r owner true size align admitted) (set_transaction clean m))
unfolding transition slab
create-Recovers r live owner size align n admitted m slot at region on small fits settled quiet e
      taken here =
    let (p, found, same) = reserve_found r m slot taken in
    let there = (scan_entry reservable r m u32_max 0 0 slot.slab p slot.entry refl found).0 in
    let t : Target r live owner slot.slab p slot.entry m = record {
      same_region = region;
      debug_on = on;
      small = small;
      settled = settled;
      ended = transition_none (scan in_transition r m u32_max 0 0) quiet;
      found = found;
      fits = fits p slot.entry;
    } in
    let where_at : (p, slot.entry) ≡ at = ground (arith, sym there ∙ here) in
    let end = crash n (create_in r owner true size align admitted) (set_transaction clean m) in
    subst (λ a. Recovers r live owner m a slot.generation end) where_at
      (subst (λ z. Recovers r live owner m (p, slot.entry) z.generation end) (sym same)
        (Throughout-crash
          (Recovers r live owner m (p, slot.entry) (generation_of (m.state p slot.entry) + 1))
          (create_in r owner true size align admitted) (set_transaction clean m)
          (create_in-Good r live owner slot.slab p slot.entry size align admitted m t e
            (taken ∙ ap ok same))
          n))
