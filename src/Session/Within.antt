-- ===== src/Session/Within.antt =====
-- src/session.rs: the directory and the heap of a session lie within its mapping.
use evering.Base.{
  false, ◌^◌, ltb, ◌&&◌, ◌⊎◌, inl, inr, ◌%◌, ◌-◌, true, arith, ℕ, ◌+◌, ◌≤◌, ◌<◌, ◌≡◌, refl, sym, ap,
  ◌∙◌, Option, none, some, List, [], ◌∷◌, Result, ok, err, panicked, update, Bool-cases, subst,
  Bool,
}
use evering.Header.Fields.{AdmitError, Context}
use evering.Pool.Layouts.{Layout}
use evering.Talc.Geometry.{Geometry}
use evering.Talc.Heap.Memory.{Heap, null, word_size, align_place}
use evering.Talc.Heap.Free.{IsFree}
use evering.Talc.Heap.Chunks.{min}
use evering.Talc.Heap.Claimed.{no_lists, first_chunk, one_chunk}
use evering.Talc.Geometry.{bin}
use evering.Talc.Heap.Claim.{Config, with_bound, claim, geometry_of, meta_size}
use evering.Mem.Map.{Error, commit}
use evering.Mem.Build.{
  Build, Reservation, reserve_in, context_at, settled, commit_reserved, pushed, push,
}
use evering.Mem.Places.{Placed, Reserved, reserve_in_lem, commit_reserved_lem}
use evering.Session.Parts.{Session, commit_bounded, place_heap, finished, behind_dir, from_config}

-- Without a wrap, the forward offset and the new size stay below the bound.
with_bound-cases {ℓ} :
    (P : Option Config → Type ℓ) (checks : Bool) (bound : ℕ) (conf : Config)
    → (checks ≡ true) ⊎ (conf.forward ≤ conf.size)
    → P none
    → ((c : Config)
        → c.forward ≡ conf.forward
        → c.geometry ≡ conf.geometry
        → c.forward + c.size ≤ bound
        → P (some c))
    → P (with_bound checks bound conf)
unfolding with_bound
with_bound-cases P checks bound conf safe over fits = elim (Bool-cases (ltb conf.forward bound)) [
  | inr e ↦ rw e over
  | inl e ↦ elim (Bool-cases (ltb (min conf.size bound) conf.forward && checks)) [
    | inl e' ↦ rw (e, e') over
    | inr e' ↦
        rw (e, e')
          (fits (record conf { size = _ }) refl refl
            (left_room conf.forward conf.size bound checks safe e e'))
  ]
]
  where
    left_room :
        (forward size bound : ℕ) (checks : Bool)
        → (checks ≡ true) ⊎ (forward ≤ size)
        → ltb forward bound ≡ true
        → (ltb (min size bound) forward && checks) ≡ false
        → forward + (min size bound + 2 ^ 64 - forward) % 2 ^ 64 ≤ bound
    left_room forward size bound checks safe e e' = ground (arith, safe, e, e')

module _ {ℓ} {M : Type ℓ} where
  -- What a layout that is pushed leaves of the cursor.
  abbrev Pushed : Build → Layout → Result ℕ Error × Build × M → Type 0
  Pushed b t (ok pointer, after, memory) =
      Placed b.map t b.offset pointer after.offset × (after ≡ record b { offset = after.offset })
  Pushed b t (err e, after, memory) = Unit
  Pushed b t (panicked, after, memory) = Unit

  settled_lem :
      (b : Build) (t : Layout) (pointer next : ℕ)
      → Placed b.map t b.offset pointer next
      → (answer : Result (Unit {0}) Error × M) → Pushed b t (settled b pointer next answer)
  settled_lem b t pointer next x (ok _, memory) = (x, refl)
  settled_lem b t pointer next x (err e, memory) = tt
  settled_lem b t pointer next x (panicked, memory) = tt

  committed_lem :
      (b : Build) (t : Layout) (r : Reservation)
      (admit : Context → M → Result (Unit {0}) AdmitError × M) (memory : M)
      → Reserved b t (ok r)
      → Pushed b t (commit_reserved b t r admit memory)
  committed_lem b t r admit memory x =
      let pointer = b.map.start + r.offset in
      subst (λ a. Pushed b t a) (sym (commit_reserved_lem b t r admit memory x))
        (settled_lem b t pointer r.next x.1
          (commit b.map admit (context_at b pointer r.offset) memory))

  reserved_cases :
      (b : Build) (t : Layout) (admit : Context → M → Result (Unit {0}) AdmitError × M) (memory : M)
      (answer : Result Reservation Error)
      → Reserved b t answer
      → Pushed b t (pushed b t admit memory answer)
  reserved_cases b t admit memory (ok r) x = committed_lem b t r admit memory x
  reserved_cases b t admit memory (err e) x = tt
  reserved_cases b t admit memory panicked x = tt

  push_lem :
      (b : Build) (t : Layout) (admit : Context → M → Result (Unit {0}) AdmitError × M) (memory : M)
      → 0 < t.align
      → Pushed b t (push b t admit memory)
  unfolding push
  push_lem b t admit memory pos =
      reserved_cases b t admit memory (reserve_in b t) (reserve_in_lem b t pos)

module _ {ℓ} {M : Type ℓ} (dir_layout heap_layout : Layout)
    (admit_dir : Context → M → Result (Unit {0}) AdmitError × M)
    (admit_heap : Config → Context → M → Result (Unit {0}) AdmitError × M) (b : Build)
    (conf : Config) where
  -- The context of the heap's header at an address.
  abbrev pub heap_context : ℕ → Context
  heap_context alloc = context_at b alloc (alloc - b.map.start)

  -- The two headers one behind the other in the mapping, and the heap bounded by it.
  pub record Opened (s : Session) (next : ℕ) (after : M) : Type ℓ where
    pub dir_from : b.map.start + b.offset ≤ s.dir
    pub dir_aligned : s.dir % dir_layout.align ≡ 0
    pub apart : s.dir + dir_layout.size ≤ s.alloc
    pub heap_aligned : s.alloc % heap_layout.align ≡ 0
    pub ends : s.alloc + heap_layout.size ≡ b.map.start + next
    pub bounded : Config
    pub before : M
    pub same_forward : bounded.forward ≡ conf.forward
    pub same_geometry : bounded.geometry ≡ conf.geometry
    pub within : next + bounded.forward + bounded.size ≤ b.map.len
    pub admitted : commit b.map (admit_heap bounded) (heap_context s.alloc) before ≡ (ok tt, after)

  abbrev pub Opens : Result Session Error × Build × M → Type ℓ
  Opens (ok s, after, memory) = Opened s after.offset memory
  Opens (err e, after, memory) = Unit
  Opens (panicked, after, memory) = Unit

  -- The cursor behind the directory's header.
  abbrev behind : ℕ → Build
  behind o = record b { offset = o }

  heap_settled :
      (checks : Bool) (dir o : ℕ) (r : Reservation) (c : Config) (before : M)
      → Placed b.map dir_layout b.offset dir o
      → Placed b.map heap_layout o (b.map.start + r.offset) r.next
      → c.forward ≡ conf.forward
      → c.geometry ≡ conf.geometry
      → c.forward + c.size ≤ b.map.len - r.next
      → (answer : Result (Unit {0}) Error × M)
      → commit b.map (admit_heap c) (context_at (behind o) (b.map.start + r.offset) r.offset) before
        ≡ answer
      → Opens (
          finished checks dir_layout heap_layout admit_dir admit_heap dir
            (settled (behind o) (b.map.start + r.offset) r.next answer))
  heap_settled checks dir o r c before x y f g room (ok _, memory) e = record {
    dir_from = x.from;
    dir_aligned = x.aligned;
    apart = omega (arith, x.ends, y.from);
    heap_aligned = y.aligned;
    ends = y.ends;
    bounded = c;
    before = before;
    same_forward = f;
    same_geometry = g;
    within = omega (arith, room, y.within);
    admitted =
        ap (λ n. commit b.map (admit_heap c) (context_at b (b.map.start + r.offset) n) before)
          (omega arith)
        ∙ e;
  }
  heap_settled checks dir o r c before x y f g room (err e', memory) e = tt
  heap_settled checks dir o r c before x y f g room (panicked, memory) e = tt

  heap-Placed :
      (checks : Bool)
      → (checks ≡ true) ⊎ (conf.forward ≤ conf.size)
      → (dir o : ℕ) (memory : M) → Placed b.map dir_layout b.offset dir o
      → (answer : Result Reservation Error) → Reserved (behind o) heap_layout answer
      → Opens (
          finished checks dir_layout heap_layout admit_dir admit_heap dir (
            place_heap checks dir_layout heap_layout admit_dir admit_heap conf
              (behind o)
              memory
              answer))
  heap-Placed checks safe dir o memory x (err e) y = tt
  heap-Placed checks safe dir o memory x panicked y = absurd y
  heap-Placed checks safe dir o memory x (ok r) y =
      let pointer = b.map.start + r.offset in
      with_bound-cases
        (λ bounded. Opens (
          finished checks dir_layout heap_layout admit_dir admit_heap dir (
            commit_bounded checks dir_layout heap_layout admit_dir admit_heap (behind o) r memory
              bounded)))
        checks (b.map.len - r.next) conf safe tt
        (λ c f g room.
          subst (λ a. Opens (finished checks dir_layout heap_layout admit_dir admit_heap dir a))
            (sym (commit_reserved_lem (behind o) heap_layout r (admit_heap c) memory y))
            (heap_settled checks dir o r c memory x y.1 f g room
              (commit b.map (admit_heap c) (context_at (behind o) pointer r.offset) memory) refl))

  dir-Pushed :
      (checks : Bool)
      → (checks ≡ true) ⊎ (conf.forward ≤ conf.size)
      → 0 < heap_layout.align
      → (answer : Result ℕ Error × Build × M) → Pushed b dir_layout answer
      → Opens (behind_dir checks dir_layout heap_layout admit_dir admit_heap conf answer)
  dir-Pushed checks safe pos (err e, after, memory) x = tt
  dir-Pushed checks safe pos (panicked, after, memory) x = tt
  dir-Pushed checks safe pos (ok dir, after, memory) x =
      subst
        (λ k. Opens (
          finished checks dir_layout heap_layout admit_dir admit_heap dir (
            place_heap checks dir_layout heap_layout admit_dir admit_heap conf k memory
              (reserve_in k heap_layout))))
        (sym x.1)
        (heap-Placed checks safe dir after.offset memory x.0
          (reserve_in (behind after.offset) heap_layout)
          (reserve_in_lem (behind after.offset) heap_layout pos))

  -- Where `from_config` answers a session, from whatever cursor and whatever the admissions do,
  -- for nonzero alignments, when overflow is checked or the forward offset is at most the size,
  -- the header of the directory lies behind the cursor and the header of the heap behind that,
  -- both aligned, and the admission of the latter was given the configuration with its size
  -- bounded: the forward offset and the size end within the mapping.
  pub from_config_lem :
      (checks : Bool) (memory : M)
      → (checks ≡ true) ⊎ (conf.forward ≤ conf.size)
      → 0 < dir_layout.align
      → 0 < heap_layout.align
      → Opens (from_config checks dir_layout heap_layout admit_dir admit_heap b conf memory)
  unfolding from_config
  from_config_lem checks memory safe dir_pos heap_pos =
      dir-Pushed checks safe heap_pos (push b dir_layout admit_dir memory)
        (push_lem b dir_layout admit_dir memory dir_pos)

  -- When a session has been opened with a configuration without forward offset, `claim` of its
  -- heap, with the bounded configuration and whatever geometry that has, in fresh metadata at
  -- whole words at the end of the header of the heap, succeeds. It leaves one free chunk, which
  -- begins behind the header and ends within the mapping.
  pub heap_within :
      (s : Session) (next : ℕ) (after : M) (x : Opened s next after) (h : Heap) (g : Geometry)
      → conf.forward ≡ 0
      → geometry_of x.bounded.size x.bounded.geometry ≡ ok g
      → h.bins ≡ null
      → h.summary ≡ 0
      → h.origin % 8 ≡ 0
      → h.origin + meta_size ≡ s.alloc + heap_layout.size
      → ((claim x.bounded h).0 ≡ ok tt)
        × ((sizes : ℕ → ℕ) × (lists : ℕ → List ℕ) × (chunk : ℕ) × IsFree g
              (claim x.bounded h).1
              sizes
              lists
            × (lists ≡ update no_lists (bin g (sizes chunk)) (chunk ∷ []))
            × (s.alloc + heap_layout.size ≤ h.origin + chunk)
            × (h.origin + (chunk + sizes chunk) ≤ b.map.start + b.map.len))
  heap_within s next after x h g no_forward geometry fresh_bins fresh words meta =
      let c = x.bounded in
      let base = align_place h (meta_size + c.forward) word_size in
      let start = first_chunk base g in
      let (claimed_ok, (sizes, lists, free, _, room, size_is, listed)) =
        one_chunk c g h geometry fresh_bins fresh words in
      let base_is : base ≡ meta_size = omega (arith, words, x.same_forward, no_forward) in
      (
        claimed_ok,
        (
          sizes,
          lists,
          start,
          free,
          listed ∙ ap (λ n. update no_lists (bin g n) (start ∷ [])) (sym size_is),
          omega (arith, meta, base_is),
          omega (arith, meta, base_is, size_is, room, x.ends, x.within),
        ),
      )
