-- ===== src/Ring/Remove.antt =====
-- Where a node is removed.
use ryan_mqtt.Prelude.{List, [], arith, sym, ap, append-nil, ◌++◌, ◌∷◌, ◌≡◌, ◌≢◌}
use ryan_mqtt.Ring.{
  Address, Heap, list_del, list_move, list_move_tail, remove_between, remove_node, set_next,
  set_prev,
}
use ryan_mqtt.Ring.Links.{
  Absent, Absent-split, Distinct, Distinct-middle, Distinct-split, IsRing, Links, Links-append,
  Links-last, Links-set_next, Links-set_prev, Links-split,
}
use ryan_mqtt.Ring.Insert.{list_add-IsRing, list_add_tail-IsRing}

-- A segment that no removal between `prev` and `next` touches.
pub Links-remove :
    (h : Heap) (prev next a : Address) (xs : List Address) (b : Address)
    → Links h a xs b
    → prev ≢ a
    → Absent prev xs
    → Absent next xs
    → next ≢ b
    → Links (remove_between prev next h) a xs b
unfolding remove_between
Links-remove h prev next a xs b l pa px ex eb =
    let h1 = set_next prev next h in
    Links-set_prev h1 next prev a xs b (Links-set_next h prev next a xs b l pa px) ex eb

-- The segment before the removed node ends at the node behind it.
Links-retarget :
    (h : Heap) (a : Address) (xs : List Address) (b next : Address)
    → Links h a xs b
    → Distinct (a ∷ xs)
    → Absent next xs
    → Links (remove_between (h b).prev next h) a xs next
unfolding remove_between set_next set_prev
Links-retarget h a [] b next l d out = ground arith
Links-retarget h a (x ∷ xs) b next l d out =
    let p = Links-last h (λ p. a ≢ p) x xs b l.2 d.0.0 d.0.1 in
    (ground arith, ground arith, Links-retarget h x xs b next l.2 d.1 out.1)

Links-remove_node :
    (h : Heap) (list : Address) (before : List Address) (entry : Address) (after : List Address)
    → Links h list (before ++ entry ∷ after) list
    → Distinct (list ∷ before ++ entry ∷ after)
    → Links (remove_node entry h) list (before ++ after) list
Links-remove_node h list before entry [] l d =
    let (l1, l2) = Links-split h list before entry [] list l in
    let (d1, d2, far) = Distinct-split (list ∷ before) (entry ∷ []) d in
    let e : remove_node entry h ≡ remove_between (h entry).prev list h =
      unfold remove_node in ap (λ n. remove_between (h entry).prev n h) l2.0 in
    rw (e, append-nil before) (Links-retarget h list before entry list l1 d1 d1.0)
Links-remove_node h list before entry (next ∷ after) l d =
    let (l1, l2) = Links-split h list before entry (next ∷ after) list l in
    let (d1, d2, far) = Distinct-split (list ∷ before) (entry ∷ next ∷ after) d in
    let e : remove_node entry h ≡ remove_between (h entry).prev next h =
      unfold remove_node in ap (λ n. remove_between (h entry).prev n h) l2.0 in
    let p = Links-last h (λ c. Absent c (entry ∷ next ∷ after)) list before entry l1 far.0 far.1 in
    let (m1, _) = Distinct-middle (list ∷ before) entry (next ∷ after) d in
    let (_, m2) = Distinct-middle (list ∷ before) next after m1 in
    let v = remove_between (h entry).prev next h in
    rw e (
      Links-append v list before next after list
        (Links-retarget h list before entry next l1 d1 (Absent-split next before after m2.1).0)
        (Links-remove h (h entry).prev next next after list l2.2 p.1.0 p.1.1 d2.1.0
          (λ i. far.0.1.0 (sym i))))

module _ (h : Heap) (list : Address) (before : List Address) (entry : Address)
    (after : List Address) (r : IsRing h list (before ++ entry ∷ after)) where
  pub list_del-IsRing : IsRing (list_del entry h) list (before ++ after)
  list_del-IsRing = record {
    links = Links-remove_node h list before entry after r.links r.distinct;
    distinct = (Distinct-middle (list ∷ before) entry after r.distinct).0;
  }

  taken : Absent entry (list ∷ before ++ after)
  taken = (Distinct-middle (list ∷ before) entry after r.distinct).1

  pub list_move-IsRing : IsRing (list_move entry list h) list (entry ∷ before ++ after)
  unfolding list_move
  list_move-IsRing = list_add-IsRing _ entry list (before ++ after) list_del-IsRing taken

  pub list_move_tail-IsRing :
      IsRing (list_move_tail entry list h) list (before ++ after ++ entry ∷ [])
  unfolding list_move_tail
  list_move_tail-IsRing = list_add_tail-IsRing _ entry list (before ++ after) list_del-IsRing taken
