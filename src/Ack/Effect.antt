-- ===== src/Ack/Effect.antt =====
-- What searching and adding do to the lists and to the heap.
use ryan_mqtt.Client.{AckHandler, ack_blocks, handler_blocks, owned}
use ryan_mqtt.Platform.{Env}
use ryan_mqtt.Prelude.{
  Option, [], ap, arith, find_at_cases, inl, inr, none, some, true, ℕ, ◌%◌, ◌++◌, ◌+◌, ◌^◌, ◌∷◌,
  ◌≡◌,
}
use ryan_mqtt.World.{World}
use ryan_mqtt.Handler.Balance.{ack_blocks-append}
use ryan_mqtt.Ack.{ack_list_add_to_ack_list, ack_list_node_find, awaits}
use ryan_mqtt.Ack.Find.{ack_list_node_find-none, ack_list_node_find-some}
use ryan_mqtt.Handler.{ack_list_remove_to_ack_list}
use ryan_mqtt.Event.{event_machine, notify}
use ryan_mqtt.Network.Effect.{messages}

-- The blocks behind what a search took off a list.
abbrev pub found_blocks : Option AckHandler → ℕ
found_blocks none = 0
found_blocks (some h) = handler_blocks h

-- Taking a handler off the main list hands its blocks to the caller.
pub ack_list_node_find-blocks :
    (packet_type packet_id : ℕ) (w : World)
    → let (r, v) = ack_list_node_find packet_type packet_id true w in
      (ack_blocks v.client.ack_handler_list + found_blocks r ≡ ack_blocks w.client.ack_handler_list)
      × (v ≡ record w {
        client = record w.client {
          ack_handler_list = v.client.ack_handler_list;
          ack_handler_count = v.client.ack_handler_count;
        };
      })
unfolding ack_list_remove_to_ack_list
ack_list_node_find-blocks packet_type packet_id w =
    elim (find_at_cases (awaits packet_type packet_id) w.client.ack_handler_list) [
      | inl (e, k, r) ↦ ground (arith, ack_list_node_find-none packet_type packet_id true w e)
      | inr (before, y, after, e, f) ↦ ground (
        arith,
        ack_list_node_find-some packet_type packet_id true w e,
        ap ack_blocks f.split,
        ack_blocks-append before (y ∷ after),
        ack_blocks-append before after,
      )
    ]

-- Adding a handler puts it at the end and counts it; only the trace may change besides.
pub ack_list_add_to_ack_list_lem :
    (env : Env) (h : AckHandler) (w : World)
    → let v = ack_list_add_to_ack_list env h w in
      v ≡ record w {
        client = record w.client {
          ack_handler_list = w.client.ack_handler_list ++ h ∷ [];
          ack_handler_count = (w.client.ack_handler_count + 1) % 2 ^ 16;
        };
        trace = v.trace;
      }
unfolding ack_list_add_to_ack_list event_machine notify
ack_list_add_to_ack_list_lem env h w = ground arith

-- So its blocks are the session's from then on.
pub ack_list_add_to_ack_list-blocks :
    (env : Env) (h : AckHandler) (w : World)
    → let v = ack_list_add_to_ack_list env h w in
      (owned v.client ≡ owned w.client + handler_blocks h)
      × (v.mallocs ≡ w.mallocs)
      × (v.frees ≡ w.frees)
ack_list_add_to_ack_list-blocks env h w = ground (
  arith,
  ack_list_add_to_ack_list_lem env h w,
  ack_blocks-append w.client.ack_handler_list (h ∷ []),
)

-- Counting a handler hands the user no message.
pub ack_list_add_to_ack_list-messages :
    (env : Env) (h : AckHandler) (w : World)
    → messages (ack_list_add_to_ack_list env h w).trace ≡ messages w.trace
unfolding ack_list_add_to_ack_list event_machine notify messages
ack_list_add_to_ack_list-messages env h w = ground arith
