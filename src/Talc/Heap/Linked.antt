-- ===== src/Talc/Heap/Linked.antt =====
-- src/talc.rs: the free lists. `FreeNode::insert` puts a node before the first, `FreeNode::remove` takes a
-- node out wherever it stands.
use evering.Base.{
  ℕ, ◌+◌, ◌≤◌, ◌≡◌, ◌⊎◌, inr, sym, ap, ◌∙◌, Option, none, some, List, [], ◌∷◌, arith, subst, ◌++◌,
}
use evering.Talc.Heap.Memory.{Heap, load, store, load_link, store_link}
use evering.Talc.Heap.Chunks.{node_size, prev_next, insert, insert_by, unlink, remove}

-- The `la` bytes at `a` and the `lb` bytes at `b` do not overlap.
abbrev pub Off : ℕ → ℕ → ℕ → ℕ → Type 0
Off a la b lb = (a + la ≤ b) ⊎ (b + lb ≤ a)

-- The `l` bytes at `q` lie outside of the nodes.
abbrev pub Outside : ℕ → ℕ → List ℕ → Type 0
Outside q l [] = Unit
Outside q l (n ∷ ns) = Off q l n node_size × Outside q l ns

abbrev pub Distinct : List ℕ → Type 0
Distinct [] = Unit
Distinct (n ∷ ns) = Outside n node_size ns × Distinct ns

-- The link at `place` leads to the first of the nodes, its link to the next, and each node knows
-- the place that leads to it.
abbrev pub Linked : Heap → ℕ → List ℕ → Type 0
Linked h place [] = load_link h place ≡ none
Linked h place (n ∷ ns) =
    (load_link h place ≡ some n) × (load h (prev_next n) ≡ place) × Linked h n ns

pub Outside-part :
    (q l q' l' : ℕ) (ns : List ℕ) → q ≤ q' → q' + l' ≤ q + l → Outside q l ns → Outside q' l' ns
Outside-part q l q' l' [] a b o = tt
Outside-part q l q' l' (n ∷ ns) a b (o, os) = (ground (arith, o), Outside-part q l q' l' ns a b os)

pub Outside-append : (q l : ℕ) (xs ys : List ℕ) → Outside q l (xs ++ ys) → Outside q l ys
Outside-append q l [] ys o = o
Outside-append q l (a ∷ xs) ys o = Outside-append q l xs ys o.1

-- Memory that agrees on the words of a list holds it too.
abbrev pub Same : Heap → Heap → List ℕ → Type 0
Same h h' [] = Unit
Same h h' (n ∷ ns) =
    (load h' n ≡ load h n)
    × (load h' (n + 8) ≡ load h (n + 8))
    × (load h' (n + 16) ≡ load h (n + 16))
    × Same h h' ns

pub load_link-same :
    (h h' : Heap) (p : ℕ)
    → load h' p ≡ load h p
    → load h' (p + 8) ≡ load h (p + 8)
    → load_link h' p ≡ load_link h p
unfolding load_link
load_link-same h h' p e e' = ground (arith, e, e')

pub Linked-Same :
    (h h' : Heap) (p : ℕ) (ns : List ℕ)
    → load h' p ≡ load h p
    → load h' (p + 8) ≡ load h (p + 8)
    → Same h h' ns
    → Linked h p ns
    → Linked h' p ns
Linked-Same h h' p [] e e' s l = load_link-same h h' p e e' ∙ l
Linked-Same h h' p (n ∷ ns) e e' s l =
    (load_link-same h h' p e e' ∙ l.0, s.2 ∙ l.1, Linked-Same h h' n ns s.0 s.1 s.3 l.2)

-- A store outside of the nodes and of the link.
pub Same-store : (h : Heap) (q v : ℕ) (ns : List ℕ) → Outside q 8 ns → Same h (store q v h) ns
Same-store h q v [] o = tt
Same-store h q v (n ∷ ns) o =
    (ground (arith, o.0), ground (arith, o.0), ground (arith, o.0), Same-store h q v ns o.1)

pub Linked-store :
    (h : Heap) (q v p : ℕ) (ns : List ℕ)
    → Off q 8 p 16
    → Outside q 8 ns
    → Linked h p ns
    → Linked (store q v h) p ns
Linked-store h q v p ns o os l =
    Linked-Same h (store q v h) p ns (ground (arith, o)) (ground (arith, o))
      (Same-store h q v ns os) l

-- `FreeNode::insert` after what its place held.
insert-none :
    (h : Heap) (node p : ℕ) → Off p 16 node node_size → Linked (insert node none p h) p (node ∷ [])
unfolding insert load_link store_link
insert-none h node p o = (ground (arith, o), ground (arith, o), ground (arith, o))

insert-some :
    (h : Heap) (node p x : ℕ) (xs : List ℕ)
    → Off p 16 node node_size
    → Outside p 16 (x ∷ xs)
    → Outside node node_size (x ∷ xs)
    → Distinct (x ∷ xs)
    → Linked h x xs
    → Linked (insert node (some x) p h) p (node ∷ x ∷ xs)
unfolding insert load_link store_link
insert-some h node p x xs o op on d l =
    let h1 = store (node + 8) x (store node 1 h) in
    let h2 = store (prev_next node) p h1 in
    let h3 = store (p + 8) node (store p 1 h2) in
    let l1 =
      Linked-store (store node 1 h) (node + 8) x x xs (ground (arith, on.0))
        (Outside-part node 24 (node + 8) 8 xs (omega arith) (omega arith) on.1)
        (Linked-store h node 1 x xs (ground (arith, on.0))
          (Outside-part node 24 node 8 xs (omega arith) (omega arith) on.1) l) in
    let l2 =
      Linked-store h1 (prev_next node) p x xs (ground (arith, on.0))
        (Outside-part node 24 (node + 16) 8 xs (omega arith) (omega arith) on.1) l1 in
    let l3 =
      Linked-store (store p 1 h2) (p + 8) node x xs (ground (arith, op.0))
        (Outside-part p 16 (p + 8) 8 xs (omega arith) (omega arith) op.1)
        (Linked-store h2 p 1 x xs (ground (arith, op.0))
          (Outside-part p 16 p 8 xs (omega arith) (omega arith) op.1) l2) in
    let l4 =
      Linked-store h3 (prev_next x) node x xs (inr (omega arith))
        (Outside-part x 24 (x + 16) 8 xs (omega arith) (omega arith) d.0) l3 in
    (
      ground (arith, o, op.0, on.0),
      ground (arith, o, op.0, on.0),
      (ground (arith, o, op.0, on.0), ground (arith, o, op.0, on.0), l4),
    )

pub insert_by-Linked :
    (h : Heap) (node p : ℕ) (ns : List ℕ)
    → Off p 16 node node_size
    → Outside p 16 ns
    → Outside node node_size ns
    → Distinct ns
    → Linked h p ns
    → Linked (insert_by node p h) p (node ∷ ns)
unfolding insert_by
insert_by-Linked h node p [] o op on d l =
    subst (λ x. Linked (insert node x p h) p (node ∷ [])) (sym l) (insert-none h node p o)
insert_by-Linked h node p (x ∷ xs) o op on d l =
    subst (λ y. Linked (insert node y p h) p (node ∷ x ∷ xs)) (sym l.0)
      (insert-some h node p x xs o op on d l.2)

-- What `FreeNode::remove` leaves alone.
abbrev pub Kept : Heap → ℕ → ℕ → Type 0
Kept h n q = load (remove n h) q ≡ load h q

remove_at :
    (h : Heap) (n p : ℕ) (next : Option ℕ)
    → load_link h n ≡ next
    → load h (prev_next n) ≡ p
    → remove n h ≡ unlink next p h
unfolding remove
remove_at h n p next e e' = rw (e, e')

unlink-keeps :
    (h : Heap) (p : ℕ) (next : ℕ) (q : ℕ)
    → Off q 8 p 16
    → Off q 8 next node_size
    → load (unlink (some next) p h) q ≡ load h q
unfolding store_link
unlink-keeps h p next q o o' = ground (arith, o, o')

unlink_none-keeps : (h : Heap) (p q : ℕ) → Off q 8 p 16 → load (unlink none p h) q ≡ load h q
unfolding store_link
unlink_none-keeps h p q o = ground (arith, o)

pub remove-Kept :
    (h : Heap) (p n : ℕ) (xs ys : List ℕ) (q : ℕ)
    → Off q 8 p 16
    → Outside q 8 (xs ++ n ∷ ys)
    → Linked h p (xs ++ n ∷ ys)
    → Kept h n q
remove-Kept h p n [] [] q o os l =
    ap (λ r. load r q) (remove_at h n p none l.2 l.1) ∙ unlink_none-keeps h p q o
remove-Kept h p n [] (y ∷ ys) q o os l =
    ap (λ r. load r q) (remove_at h n p (some y) l.2.0 l.1) ∙ unlink-keeps h p y q o os.1.0
remove-Kept h p n (x ∷ xs) ys q o os l = remove-Kept h x n xs ys q (ground (arith, os.0)) os.1 l.2

unlink-Linked :
    (h : Heap) (p y : ℕ) (ys : List ℕ)
    → Outside p 16 (y ∷ ys)
    → Distinct (y ∷ ys)
    → Linked h y ys
    → Linked (unlink (some y) p h) p (y ∷ ys)
unfolding store_link load_link
unlink-Linked h p y ys op d l =
    let l1 =
      Linked-store (store p 1 h) (p + 8) y y ys (ground (arith, op.0))
        (Outside-part p 16 (p + 8) 8 ys (omega arith) (omega arith) op.1)
        (Linked-store h p 1 y ys (ground (arith, op.0))
          (Outside-part p 16 p 8 ys (omega arith) (omega arith) op.1) l) in
    (
      ground (arith, op.0),
      ground (arith, op.0),
      Linked-store (store (p + 8) y (store p 1 h)) (prev_next y) p y ys (inr (omega arith))
          (Outside-part y 24 (y + 16) 8 ys (omega arith) (omega arith) d.0) l1,
    )

pub Distinct-append :
    (n : ℕ) (xs ys : List ℕ) → Distinct (xs ++ n ∷ ys) → Outside n node_size ys × Distinct ys
Distinct-append n [] ys d = d
Distinct-append n (x ∷ xs) ys d = Distinct-append n xs ys d.1

unlinked : (h : Heap) (p : ℕ) → load_link (unlink none p h) p ≡ none
unfolding store_link load_link
unlinked h p = ground arith

-- A node is taken out of a list wherever it stands, and the rest stays a list.
pub remove-Linked :
    (h : Heap) (p n : ℕ) (xs ys : List ℕ)
    → Outside p 16 (xs ++ n ∷ ys)
    → Distinct (xs ++ n ∷ ys)
    → Linked h p (xs ++ n ∷ ys)
    → Linked (remove n h) p (xs ++ ys)
remove-Linked h p n [] [] op d l =
    subst (λ r. Linked r p []) (sym (remove_at h n p none l.2 l.1)) (unlinked h p)
remove-Linked h p n [] (y ∷ ys) op d l =
    subst (λ r. Linked r p (y ∷ ys)) (sym (remove_at h n p (some y) l.2.0 l.1))
      (unlink-Linked h p y ys op.1 d.1 l.2.2)
remove-Linked h p n (x ∷ xs) ys op d l =
    let kept : (q : ℕ) → Off q 8 x 16 → Outside q 8 (xs ++ n ∷ ys) → Kept h n q =
      λ q o os. remove-Kept h x n xs ys q o os l.2 in
    (
      load_link-same h (remove n h) p
            (kept p (ground (arith, op.0))
              (Outside-part p 16 p 8 (xs ++ n ∷ ys) (omega arith) (omega arith) op.1))
            (kept (p + 8) (ground (arith, op.0))
              (Outside-part p 16 (p + 8) 8 (xs ++ n ∷ ys) (omega arith) (omega arith) op.1))
          ∙ l.0,
      kept (x + 16) (inr (omega arith))
            (Outside-part x 24 (x + 16) 8 (xs ++ n ∷ ys) (omega arith) (omega arith) d.0)
          ∙ l.1,
      remove-Linked h x n xs ys
          (Outside-part x 24 x 16 (xs ++ n ∷ ys) (omega arith) (omega arith) d.0) d.1 l.2,
    )
