-- ===== src/Ring.antt =====
-- common/RyanMqttList.c and common/RyanMqttList.h: the circular, doubly linked list whose nodes lie
-- inside the handlers. The other modules hold the same lists as sequences of handlers.
pub mod Links
pub mod Insert
pub mod Remove
pub mod Walk
pub mod Frame
use ryan_mqtt.Prelude.{Bool, List, Option, [], if◌then◌else◌, none, some, suc, zero, ℕ, ◌==◌, ◌∷◌}

-- `RyanMqttList_t *`
abbrev pub Address : Type 0
Address = ℕ

-- `RyanMqttList_t`
pub record ListNode : Type 0 where
  pub next : Address
  pub prev : Address

-- The node at each address.
abbrev pub Heap : Type 0
Heap = Address → ListNode

-- `a->next = b` and `a->prev = b`
unfoldable pub set_next : Address → Address → Heap → Heap
set_next a b h = λ c. if c == a then record (h c) { next = b } else h c

unfoldable pub set_prev : Address → Address → Heap → Heap
set_prev a b h = λ c. if c == a then record (h c) { prev = b } else h c

-- `RyanMqttListInsertBetween`
unfoldable pub insert_between : (node prev next : Address) → Heap → Heap
insert_between node prev next h =
    set_next prev node (set_prev node prev (set_next node next (set_prev next node h)))

-- `RyanMqttListRemoveBetween`
unfoldable pub remove_between : (prev next : Address) → Heap → Heap
remove_between prev next h = set_prev next prev (set_next prev next h)

-- `RyanMqttListRemoveNode`
unfoldable pub remove_node : Address → Heap → Heap
remove_node entry h = remove_between (h entry).prev (h entry).next h

-- `RyanMqttListInit`
unfoldable pub list_init : Address → Heap → Heap
list_init list h = set_prev list list (set_next list list h)

-- `RyanMqttListAdd`
unfoldable pub list_add : (node list : Address) → Heap → Heap
list_add node list h = insert_between node list (h list).next h

-- `RyanMqttListAddTail`
unfoldable pub list_add_tail : (node list : Address) → Heap → Heap
list_add_tail node list h = insert_between node (h list).prev list h

-- `RyanMqttListDel`
abbrev pub list_del : Address → Heap → Heap
list_del entry h = remove_node entry h

-- `RyanMqttListDelInit`
unfoldable pub list_del_init : Address → Heap → Heap
list_del_init entry h = list_init entry (remove_node entry h)

-- `RyanMqttListMove`
unfoldable pub list_move : (node list : Address) → Heap → Heap
list_move node list h = list_add node list (remove_node node h)

-- `RyanMqttListMoveTail`
unfoldable pub list_move_tail : (node list : Address) → Heap → Heap
list_move_tail node list h = list_add_tail node list (remove_node node h)

-- `RyanMqttListIsEmpty`
abbrev pub list_is_empty : Address → Heap → Bool
list_is_empty list h = (h list).next == list

-- `RyanMqttListForEach` from `curr` on: the nodes that the loop stands at, or `none` where the fuel,
-- an upper bound of their number, is used up.
unfoldable pub for_each_from : ℕ → (curr list : Address) → Heap → Option (List Address)
for_each_from zero curr list h = none
for_each_from (suc fuel) curr list h =
    let rest = for_each_from fuel (h curr).next list h in
    if curr == list then some [] else elim rest [ none ↦ none | some xs ↦ some (curr ∷ xs) ]

unfoldable pub for_each : ℕ → Address → Heap → Option (List Address)
for_each fuel list h = for_each_from fuel (h list).next list h

-- `RyanMqttListForEachSafe` with the loop's body.
unfoldable pub for_each_safe_from :
    (Address → Heap → Heap) → ℕ → (curr next list : Address) → Heap → Option Heap
for_each_safe_from body zero curr next list h = none
for_each_safe_from body (suc fuel) curr next list h =
    let v = body curr h in
    let rest = for_each_safe_from body fuel next (v next).next list v in
    if curr == list then some h else rest

unfoldable pub for_each_safe : (Address → Heap → Heap) → ℕ → Address → Heap → Option Heap
for_each_safe body fuel list h =
    for_each_safe_from body fuel (h list).next (h (h list).next).next list h
