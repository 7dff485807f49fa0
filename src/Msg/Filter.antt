-- ===== src/Msg/Filter.antt =====
-- `RyanMqttMsgHandlerFindAndDestroyByPacketId` as a filter.
use ryan_mqtt.Msg.{
  find_and_destroy_loop, msg_handler_find_and_destroy_by_packet_id, is_condemned, msg_handler_find,
  msg_topic_is_match,
}
use ryan_mqtt.Handler.{msg_handler_destroy, msg_handler_remove_to_msg_list}
use ryan_mqtt.Prelude.{
  List, ℕ, Bool, ◌≡◌, ◌++◌, reject, ◌+◌, length, keep, arith, [], refl, ◌∷◌, append_assoc, some,
  length-keep-reject, find_at_cases, inl, inr,
}
use ryan_mqtt.World.{free, World, Balanced}
use ryan_mqtt.Client.{MsgHandler}

find_and_destroy_loop_lem :
    (topic : List ℕ) (packet_id : ℕ) (skip : Bool) (before rest : List MsgHandler) (w : World)
    → w.client.msg_handler_list ≡ before ++ rest
    → find_and_destroy_loop topic packet_id skip before rest w ≡ record w {
      client = record w.client {
        msg_handler_list = before ++ reject (is_condemned topic packet_id skip) rest;
      };
      frees = w.frees + length (keep (is_condemned topic packet_id skip) rest);
    }
unfolding find_and_destroy_loop msg_handler_destroy free msg_handler_remove_to_msg_list
find_and_destroy_loop_lem topic packet_id skip before [] w e = ground arith
find_and_destroy_loop_lem topic packet_id skip before (m ∷ rest) w e = ground (
  arith,
  append_assoc before (m ∷ []) rest,
  append_assoc before (m ∷ []) (reject (is_condemned topic packet_id skip) rest),
  find_and_destroy_loop_lem topic packet_id skip (before ++ m ∷ []) rest w,
  find_and_destroy_loop_lem topic packet_id skip before rest
      (msg_handler_destroy m (msg_handler_remove_to_msg_list before rest w)),
)

-- The call takes out of the subscriptions exactly those with the topic and with the packet
-- identifier (with any other one, under `skip`), keeps the order of the rest, frees one block for
-- each that it takes out, and changes nothing else.
pub msg_handler_find_and_destroy_by_packet_id_lem :
    (topic : List ℕ) (packet_id : ℕ) (skip : Bool) (w : World)
    → msg_handler_find_and_destroy_by_packet_id topic packet_id skip w ≡ record w {
      client = record w.client {
        msg_handler_list = reject (is_condemned topic packet_id skip) w.client.msg_handler_list;
      };
      frees = w.frees + length (keep (is_condemned topic packet_id skip) w.client.msg_handler_list);
    }
unfolding msg_handler_find_and_destroy_by_packet_id
msg_handler_find_and_destroy_by_packet_id_lem topic packet_id skip w =
    find_and_destroy_loop_lem topic packet_id skip [] w.client.msg_handler_list w refl

-- A place that was found is a place in the list.
pub msg_handler_find-split :
    (topic : List ℕ) (wildcards : Bool) (w : World) {before after : List MsgHandler}
    {m : MsgHandler}
    → msg_handler_find topic wildcards w ≡ some (before, m, after)
    → w.client.msg_handler_list ≡ before ++ m ∷ after
unfolding msg_handler_find
msg_handler_find-split topic wildcards w e =
    elim (find_at_cases (λ m. msg_topic_is_match m topic wildcards) w.client.msg_handler_list) [
      | inl (e', k, r) ↦ cc
      | inr (before', m', after', e', f) ↦ ground (arith, f.split)
    ]

-- Dropping the others keeps the balance.
pub msg_handler_find_and_destroy_by_packet_id-Balanced :
    (topic : List ℕ) (packet_id : ℕ) (skip : Bool) (w : World)
    → Balanced 0 w (msg_handler_find_and_destroy_by_packet_id topic packet_id skip w)
msg_handler_find_and_destroy_by_packet_id-Balanced topic packet_id skip w = ground (
  arith,
  msg_handler_find_and_destroy_by_packet_id_lem topic packet_id skip w,
  length-keep-reject (is_condemned topic packet_id skip) w.client.msg_handler_list,
)
