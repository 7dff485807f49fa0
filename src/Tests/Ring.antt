-- ===== src/Tests/Ring.antt =====
-- Runs of the circular lists: a list at 100 with the nodes 1, 2 and 3, and an empty one at 200.
use ryan_mqtt.Prelude.{Bool, [], arith, some, ◌==◌, ◌∷◌, ◌≡◌}
use ryan_mqtt.Ring.{
  Address, Heap, for_each_safe, insert_between, list_add_tail, list_del, list_init, set_next,
  set_prev,
}
use ryan_mqtt.Ring.Links.{IsRing}
use ryan_mqtt.Ring.Walk.{drop_if, for_each_safe-IsRing}
use ryan_mqtt.Ring.Frame.{list_del-list_add_tail}

abbrev no_nodes : Heap
no_nodes = λ a. record { next = 0; prev = 0 }

abbrev two_lists : Heap
two_lists =
    list_add_tail 3 100
      (list_add_tail 2 100 (list_add_tail 1 100 (list_init 100 (list_init 200 no_nodes))))

full-IsRing : IsRing two_lists 100 (1 ∷ 2 ∷ 3 ∷ [])
unfolding list_add_tail insert_between list_init set_next set_prev
full-IsRing = ground arith

empty-IsRing : IsRing two_lists 200 []
unfolding list_add_tail insert_between list_init set_next set_prev
empty-IsRing = ground arith

abbrev is_second : Address → Bool
is_second a = a == 2

for_each_safe-IsRing_example :
    (v : Heap) × (for_each_safe (drop_if is_second) 4 100 two_lists ≡ some v)
    × IsRing v 100 (1 ∷ 3 ∷ [])
for_each_safe-IsRing_example =
    for_each_safe-IsRing is_second 100 4 two_lists (1 ∷ 2 ∷ 3 ∷ []) full-IsRing (omega arith)

list_del-list_add_tail_example :
    let v = list_add_tail 2 200 (list_del 2 two_lists) in
    IsRing v 100 (1 ∷ 3 ∷ []) × IsRing v 200 (2 ∷ [])
list_del-list_add_tail_example =
    list_del-list_add_tail two_lists 100 (1 ∷ []) 2 (3 ∷ []) 200 [] full-IsRing empty-IsRing
      (ground arith)
