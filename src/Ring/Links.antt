-- ===== src/Ring/Links.antt =====
-- What a circular list stands for: the sequence of its nodes.
use ryan_mqtt.Prelude.{sym, All, List, [], arith, ◌++◌, ◌∷◌, ◌≡◌, ◌≢◌}
use ryan_mqtt.Ring.{Address, Heap, set_next, set_prev}

abbrev pub Absent : Address → List Address → Type 0
Absent a xs = All (λ x. a ≢ x) xs

abbrev pub Distinct : List Address → Type 0
Distinct [] = Unit {0}
Distinct (x ∷ xs) = Absent x xs × Distinct xs

-- From `a` the pointers lead forth through `xs` to `b`, and back.
abbrev pub Links : Heap → Address → List Address → Address → Type 0
Links h a [] b = ((h a).next ≡ b) × ((h b).prev ≡ a)
Links h a (x ∷ xs) b = ((h a).next ≡ x) × ((h x).prev ≡ a) × Links h x xs b

-- `list` is the head of a circular list of the distinct nodes `xs`.
pub record IsRing (h : Heap) (list : Address) (xs : List Address) : Type 0 where
  pub links : Links h list xs list
  pub distinct : Distinct (list ∷ xs)

pub Absent-append :
    (a : Address) (xs ys : List Address) → Absent a xs → Absent a ys → Absent a (xs ++ ys)
Absent-append a [] ys p q = q
Absent-append a (x ∷ xs) ys p q = (p.0, Absent-append a xs ys p.1 q)

pub Absent-split :
    (a : Address) (xs ys : List Address) → Absent a (xs ++ ys) → Absent a xs × Absent a ys
Absent-split a [] ys p = (tt, p)
Absent-split a (x ∷ xs) ys p = let (l, r) = Absent-split a xs ys p.1 in ((p.0, l), r)

pub Distinct-snoc :
    (a : Address) (xs : List Address) → Distinct xs → Absent a xs → Distinct (xs ++ a ∷ [])
Distinct-snoc a [] d out = (tt, tt)
Distinct-snoc a (x ∷ xs) d out =
    (Absent-append x xs (a ∷ []) d.0 ((λ e. out.0 (sym e)), tt), Distinct-snoc a xs d.1 out.1)

pub Distinct-split :
    (xs ys : List Address)
    → Distinct (xs ++ ys)
    → Distinct xs × Distinct ys × All (λ x. Absent x ys) xs
Distinct-split [] ys d = (tt, d, tt)
Distinct-split (x ∷ xs) ys d =
    let (out, far) = Absent-split x xs ys d.0 in
    let (e, f, all) = Distinct-split xs ys d.1 in ((out, e), f, (far, all))

-- One of distinct addresses is taken out.
pub Distinct-middle :
    (xs : List Address) (a : Address) (ys : List Address)
    → Distinct (xs ++ a ∷ ys)
    → Distinct (xs ++ ys) × Absent a (xs ++ ys)
Distinct-middle [] a ys d = (d.1, d.0)
Distinct-middle (x ∷ xs) a ys d =
    let (l, r) = Absent-split x xs (a ∷ ys) d.0 in
    let (e, out) = Distinct-middle xs a ys d.1 in
    ((Absent-append x xs ys l r.1, e), ((λ i. r.0 (sym i)), out))

module _ (h : Heap) where
  -- A pointer of no node of the segment may change.
  pub Links-set_next :
      (p q a : Address) (xs : List Address) (b : Address)
      → Links h a xs b
      → p ≢ a
      → Absent p xs
      → Links (set_next p q h) a xs b
  unfolding set_next
  Links-set_next p q a [] b l n out = ground arith
  Links-set_next p q a (x ∷ xs) b l n out =
      (ground arith, ground arith, Links-set_next p q x xs b l.2 out.0 out.1)

  pub Links-set_prev :
      (p q a : Address) (xs : List Address) (b : Address)
      → Links h a xs b
      → Absent p xs
      → p ≢ b
      → Links (set_prev p q h) a xs b
  unfolding set_prev
  Links-set_prev p q a [] b l out n = ground arith
  Links-set_prev p q a (x ∷ xs) b l out n =
      (ground arith, ground arith, Links-set_prev p q x xs b l.2 out.1 n)

  -- The last node of a segment.
  pub Links-last :
      (P : Address → Type 0) (a : Address) (xs : List Address) (b : Address)
      → Links h a xs b
      → P a
      → All P xs
      → P (h b).prev
  Links-last P a [] b l p ps = rw l.1 p
  Links-last P a (x ∷ xs) b l p ps = Links-last P x xs b l.2 ps.0 ps.1

  pub Links-append :
      (a : Address) (xs : List Address) (b : Address) (ys : List Address) (c : Address)
      → Links h a xs b
      → Links h b ys c
      → Links h a (xs ++ b ∷ ys) c
  Links-append a [] b ys c l m = (l.0, l.1, m)
  Links-append a (x ∷ xs) b ys c l m = (l.0, l.1, Links-append x xs b ys c l.2 m)

  pub Links-split :
      (a : Address) (xs : List Address) (b : Address) (ys : List Address) (c : Address)
      → Links h a (xs ++ b ∷ ys) c
      → Links h a xs b × Links h b ys c
  Links-split a [] b ys c l = ((l.0, l.1), l.2)
  Links-split a (x ∷ xs) b ys c l = let (m, n) = Links-split x xs b ys c l.2 in ((l.0, l.1, m), n)
