-- ===== src/Ring/Insert.antt =====
-- Where a node is inserted.
use ryan_mqtt.Prelude.{sym, refl, ◌∙◌, List, [], arith, ◌++◌, ◌∷◌, ◌≡◌, ◌≢◌}
use ryan_mqtt.Ring.{
  Address, Heap, insert_between, list_add, list_add_tail, list_init, set_next, set_prev,
}
use ryan_mqtt.Ring.Links.{
  Absent, Distinct, Distinct-snoc, IsRing, Links, Links-last, Links-set_next, Links-set_prev,
}

pub list_init-IsRing : (list : Address) (h : Heap) → IsRing (list_init list h) list []
unfolding list_init set_next set_prev
list_init-IsRing list h = ground arith

-- A segment that no insertion between `prev` and `next` touches.
pub Links-insert :
    (h : Heap) (node prev next a : Address) (xs : List Address) (b : Address)
    → Links h a xs b
    → node ≢ a
    → Absent node xs
    → node ≢ b
    → prev ≢ a
    → Absent prev xs
    → Absent next xs
    → next ≢ b
    → Links (insert_between node prev next h) a xs b
unfolding insert_between
Links-insert h node prev next a xs b l na nx nb pa px ex eb =
    let h1 = set_prev next node h in
    let h2 = set_next node next h1 in
    let h3 = set_prev node prev h2 in
    let l1 = Links-set_prev h next node a xs b l ex eb in
    let l2 = Links-set_next h1 node next a xs b l1 na nx in
    let l3 = Links-set_prev h2 node prev a xs b l2 nx nb in
    Links-set_next h3 prev node a xs b l3 pa px

Links-add :
    (h : Heap) (node next list : Address) (xs : List Address)
    → Links h list xs list
    → next ≡ (h list).next
    → Distinct (list ∷ xs)
    → node ≢ list
    → Absent node xs
    → Links (insert_between node list next h) list (node ∷ xs) list
Links-add h node next list [] l e d n out = unfold insert_between set_next set_prev in ground arith
Links-add h node next list (x ∷ xs) l e d n out =
    let same : next ≡ x = e ∙ l.0 in
    let r =
      Links-insert h node list next x xs list l.2 out.0 out.1 n d.0.0 d.0.1 (rw same d.1.0)
        (rw same (λ i. d.0.0 (sym i))) in
    unfold insert_between set_next set_prev in
    (ground arith, ground arith, (ground arith, ground arith, r))

Links-add_tail :
    (h : Heap) (node a : Address) (xs : List Address) (b : Address)
    → Links h a xs b
    → Distinct (a ∷ xs)
    → Absent b xs
    → node ≢ a
    → Absent node xs
    → node ≢ b
    → Links (insert_between node (h b).prev b h) a (xs ++ node ∷ []) b
unfolding insert_between set_next set_prev
Links-add_tail h node a [] b l d c n out m = ground arith
Links-add_tail h node a (x ∷ xs) b l d c n out m =
    let p = Links-last h (λ p. a ≢ p) x xs b l.2 d.0.0 d.0.1 in
    (ground arith, ground arith, Links-add_tail h node x xs b l.2 d.1 c.1 out.0 out.1 m)

module _ (h : Heap) (node list : Address) (xs : List Address) (r : IsRing h list xs)
    (fresh : Absent node (list ∷ xs)) where
  pub list_add-IsRing : IsRing (list_add node list h) list (node ∷ xs)
  list_add-IsRing = record {
    links =
        unfold list_add in
        Links-add h node (h list).next list xs r.links refl r.distinct fresh.0 fresh.1;
    distinct = (((λ e. fresh.0 (sym e)), r.distinct.0), (fresh.1, r.distinct.1));
  }

  pub list_add_tail-IsRing : IsRing (list_add_tail node list h) list (xs ++ node ∷ [])
  unfolding list_add_tail
  list_add_tail-IsRing = record {
    links =
        Links-add_tail h node list xs list r.links r.distinct r.distinct.0 fresh.0 fresh.1 fresh.0;
    distinct = Distinct-snoc node (list ∷ xs) r.distinct fresh;
  }
