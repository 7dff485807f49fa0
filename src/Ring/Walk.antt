-- ===== src/Ring/Walk.antt =====
-- What the loops over a list visit, with a body that removes nodes too.
use ryan_mqtt.Prelude.{
  Bool, Bool-cases, List, [], append_assoc, arith, false, if◌then◌else◌, inl, inr, length, refl,
  reject, some, suc, true, zero, ℕ, ◌++◌, ◌<◌, ◌==◌, ◌∷◌, ◌≡◌, ◌↔◌,
}
use ryan_mqtt.Ring.{
  Address, Heap, for_each, for_each_from, for_each_safe, for_each_safe_from, list_del,
  list_is_empty,
}
use ryan_mqtt.Ring.Links.{Absent, IsRing, Links, Links-split, Distinct-split}
use ryan_mqtt.Ring.Remove.{list_del-IsRing}

abbrev first : List Address → Address → Address
first [] b = b
first (x ∷ xs) b = x

Links-first :
    (h : Heap) (a : Address) (xs : List Address) (b : Address)
    → Links h a xs b
    → (h a).next ≡ first xs b
Links-first h a [] b l = l.0
Links-first h a (x ∷ xs) b l = l.0

for_each_from-Links :
    (fuel : ℕ) (h : Heap) (curr a list : Address) (xs : List Address)
    → Links h a xs list
    → curr ≡ (h a).next
    → Absent list xs
    → length xs < fuel
    → for_each_from fuel curr list h ≡ some xs
unfolding for_each_from
for_each_from-Links zero h curr a list xs l e out big = ground arith
for_each_from-Links (suc fuel) h curr a list [] l e out big = ground arith
for_each_from-Links (suc fuel) h curr a list (x ∷ xs) l e out big = ground (
  arith,
  for_each_from-Links fuel h (h curr).next x list xs l.2 (ground arith) out.1 (omega arith),
)

-- On a circular list RyanMqttListForEach stands at each of its nodes once, in their order, and then
-- stops. Fuel above their number is enough.
pub for_each-IsRing :
    (fuel : ℕ) (h : Heap) (list : Address) (xs : List Address)
    → IsRing h list xs
    → length xs < fuel
    → for_each fuel list h ≡ some xs
unfolding for_each
for_each-IsRing fuel h list xs r big =
    for_each_from-Links fuel h (h list).next list list xs r.links refl r.distinct.0 big

pub list_is_empty-IsRing :
    (h : Heap) (list : Address) (xs : List Address)
    → IsRing h list xs
    → (list_is_empty list h ≡ true) ↔ (xs ≡ [])
list_is_empty-IsRing h list [] r = ground (arith, r.links)
list_is_empty-IsRing h list (x ∷ xs) r = ground (arith, r.links, r.distinct)

-- A loop's body that takes the nodes off that pass a test.
abbrev pub drop_if : (Address → Bool) → Address → Heap → Heap
drop_if test curr h = if test curr then list_del curr h else h

module _ (test : Address → Bool) (list : Address) where
  for_each_safe_from-IsRing :
      (fuel : ℕ) (curr next : Address) (h : Heap) (done todo : List Address)
      → IsRing h list (done ++ todo)
      → curr ≡ first todo list
      → next ≡ (h curr).next
      → length todo < fuel
      → (v : Heap) × (for_each_safe_from (drop_if test) fuel curr next list h ≡ some v)
        × IsRing v list (done ++ reject test todo)
  unfolding for_each_safe_from
  for_each_safe_from-IsRing zero curr next h done todo r e f big = ground arith
  for_each_safe_from-IsRing (suc fuel) curr next h done [] r e f big = (h, ground arith, r)
  for_each_safe_from-IsRing (suc fuel) curr next h done (c ∷ rest) r e f big =
      let (_, d, far) = Distinct-split (list ∷ done) (c ∷ rest) r.distinct in
      let (_, l) = Links-split h list done c rest list r.links in
      let g : next ≡ first rest list = rw (f, e) (Links-first h c rest list l) in
      let n : (c == list) ≡ false = ground (arith, far) in
      elim (Bool-cases (test c)) [
        | inl y ↦
            let (v, run, ring) =
              for_each_safe_from-IsRing fuel next ((list_del c h) next).next (list_del c h) done
                rest (list_del-IsRing h list done c rest r) g refl (omega arith) in
            (v, rw (e, n, y) run, rw y ring)
        | inr k ↦
            let (v, run, ring) =
              for_each_safe_from-IsRing fuel next (h next).next h (done ++ c ∷ []) rest
                (rw (append_assoc done (c ∷ []) rest) r) g refl (omega arith) in
            (v, rw (e, n, k) run, rw k (rw (append_assoc done (c ∷ []) (reject test rest)) at ring))
      ]

  -- A RyanMqttListForEachSafe whose body removes the nodes that pass a test ends, and leaves a
  -- circular list of the other nodes in their old order. Fuel above the number of nodes is enough.
  pub for_each_safe-IsRing :
      (fuel : ℕ) (h : Heap) (xs : List Address)
      → IsRing h list xs
      → length xs < fuel
      → (v : Heap) × (for_each_safe (drop_if test) fuel list h ≡ some v)
        × IsRing v list (reject test xs)
  unfolding for_each_safe
  for_each_safe-IsRing fuel h xs r big =
      for_each_safe_from-IsRing fuel (h list).next (h (h list).next).next h [] xs r
        (Links-first h list xs list r.links) refl big
