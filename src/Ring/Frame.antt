-- ===== src/Ring/Frame.antt =====
-- A change of one list leaves another one alone, and a node goes over from one to the other.
use ryan_mqtt.Prelude.{All, List, [], sym, ◌++◌, ◌∷◌}
use ryan_mqtt.Ring.{
  Address, Heap, list_add_tail, list_del, list_del_init, list_init, remove_node, set_next,
}
use ryan_mqtt.Ring.Links.{
  Absent, Absent-append, Absent-split, Distinct-middle, IsRing, Links, Links-last, Links-set_next,
  Links-set_prev, Links-split,
}
use ryan_mqtt.Ring.Insert.{Links-insert, list_add_tail-IsRing, list_init-IsRing}
use ryan_mqtt.Ring.Remove.{Links-remove, list_del-IsRing}

-- No node of one list is one of the other.
abbrev pub Apart : List Address → List Address → Type 0
Apart xs ys = All (λ a. Absent a ys) xs

Apart-nil : (xs : List Address) → Apart xs []
Apart-nil [] = tt
Apart-nil (x ∷ xs) = (tt, Apart-nil xs)

Apart-cons : (y : Address) (ys xs : List Address) → Absent y xs → Apart xs ys → Apart xs (y ∷ ys)
Apart-cons y ys [] out a = tt
Apart-cons y ys (x ∷ xs) out a = (((λ e. out.0 (sym e)), a.0), Apart-cons y ys xs out.1 a.1)

pub Apart-sym : (xs ys : List Address) → Apart xs ys → Apart ys xs
Apart-sym [] ys a = Apart-nil ys
Apart-sym (x ∷ xs) ys a = Apart-cons x xs ys a.0 (Apart-sym xs ys a.1)

Apart-middle :
    (xs : List Address) (b : Address) (zs ys : List Address)
    → Apart ys (xs ++ b ∷ zs)
    → Apart ys (xs ++ zs)
Apart-middle xs b zs [] a = tt
Apart-middle xs b zs (y ∷ ys) a =
    let (l, r) = Absent-split y xs (b ∷ zs) a.0 in
    (Absent-append y xs zs l r.1, Apart-middle xs b zs ys a.1)

All-split : (P : Address → Type 0) (xs ys : List Address) → All P (xs ++ ys) → All P xs × All P ys
All-split P [] ys a = (tt, a)
All-split P (x ∷ xs) ys a = let (l, r) = All-split P xs ys a.1 in ((a.0, l), r)

-- The first node of a segment.
Links-next :
    (P : Address → Type 0) (h : Heap) (a : Address) (xs : List Address) (b : Address)
    → Links h a xs b
    → P b
    → All P xs
    → P (h a).next
Links-next P h a [] b l p ps = rw l.0 p
Links-next P h a (x ∷ xs) b l p ps = rw l.0 ps.0

module _ (h : Heap) (list m : Address) (ys : List Address) (other : IsRing h m ys) where
  pub list_del-frame :
      (before : List Address) (entry : Address) (after : List Address)
      → IsRing h list (before ++ entry ∷ after)
      → Apart (list ∷ before ++ entry ∷ after) (m ∷ ys)
      → IsRing (list_del entry h) m ys
  unfolding remove_node
  list_del-frame before entry after r apart =
      let P = λ (a : Address). Absent a (m ∷ ys) in
      let (l1, l2) = Links-split h list before entry after list r.links in
      let (a1, a2) = All-split P before (entry ∷ after) apart.1 in
      let p = Links-last h P list before entry l1 apart.0 a1 in
      let n = Links-next P h entry after list l2 apart.0 a2.1 in
      record {
        links = Links-remove h (h entry).prev (h entry).next m ys m other.links p.0 p.1 n.1 n.0;
        distinct = other.distinct;
      }

  pub list_add_tail-frame :
      (node : Address) (xs : List Address)
      → IsRing h list xs
      → Apart (list ∷ xs) (m ∷ ys)
      → Absent node (m ∷ ys)
      → IsRing (list_add_tail node list h) m ys
  unfolding list_add_tail
  list_add_tail-frame node xs r apart out =
      let P = λ (a : Address). Absent a (m ∷ ys) in
      let p = Links-last h P list xs list r.links apart.0 apart.1 in
      record {
        links =
            Links-insert h node (h list).prev list m ys m other.links out.0 out.1 out.0 p.0 p.1
              apart.0.1 apart.0.0;
        distinct = other.distinct;
      }

-- A node of one list that RyanMqttListDel takes off and RyanMqttListAddTail puts on another one, of
-- which no node was on the first, is the last of that other list, and both are circular lists with
-- their other nodes in the old order.
pub list_del-list_add_tail :
    (h : Heap) (list : Address) (before : List Address) (node : Address) (after : List Address)
    (m : Address) (ys : List Address)
    → IsRing h list (before ++ node ∷ after)
    → IsRing h m ys
    → Apart (list ∷ before ++ node ∷ after) (m ∷ ys)
    → let v = list_add_tail node m (list_del node h) in
      IsRing v list (before ++ after) × IsRing v m (ys ++ node ∷ [])
list_del-list_add_tail h list before node after m ys r s apart =
    let h1 = list_del node h in
    let r1 = list_del-IsRing h list before node after r in
    let s1 = list_del-frame h list m ys s before node after r apart in
    let (_, out) = All-split (λ a. Absent a (m ∷ ys)) (list ∷ before) (node ∷ after) apart in
    let back = Apart-sym (list ∷ before ++ node ∷ after) (m ∷ ys) apart in
    let (_, gone) = Distinct-middle (list ∷ before) node after r.distinct in
    (
      list_add_tail-frame h1 m list (before ++ after) r1 node ys s1
          (Apart-middle (list ∷ before) node after (m ∷ ys) back) gone,
      list_add_tail-IsRing h1 node m ys s1 out.0,
    )

-- RyanMqttListDelInit leaves the list without the node, and makes the node an empty list.
pub list_del_init-IsRing :
    (h : Heap) (list : Address) (before : List Address) (entry : Address) (after : List Address)
    → IsRing h list (before ++ entry ∷ after)
    → let v = list_del_init entry h in IsRing v list (before ++ after) × IsRing v entry []
unfolding list_del_init list_init
list_del_init-IsRing h list before entry after r =
    let h1 = list_del entry h in
    let r1 = list_del-IsRing h list before entry after r in
    let (_, out) = Distinct-middle (list ∷ before) entry after r.distinct in
    let l1 = Links-set_next h1 entry entry list (before ++ after) list r1.links out.0 out.1 in
    let h2 = set_next entry entry h1 in
    (
      record {
        links = Links-set_prev h2 entry entry list (before ++ after) list l1 out.1 out.0;
        distinct = r1.distinct;
      },
      list_init-IsRing entry h1,
    )
