-- ===== src/Ack.antt =====
-- mqttclient/RyanMqttUtileAck.c, lines 96 to 167, 192 to 235 and 261 to 286: the two lists of
-- awaited acknowledgements.
pub mod Find
pub mod Clear
pub mod Effect
use ryan_mqtt.Prelude.{
  ℕ, Bool, ◌==◌, ◌+◌, suc, length, ◌&&◌, Option, ◌%◌, true, find_at, ◌^◌, some, ◌++◌, ◌∷◌, zero, [],
  if◌then◌else◌, leb, none,
}
use ryan_mqtt.Client.{AckHandler}
use ryan_mqtt.Platform.{Env}
use ryan_mqtt.World.{World, M, count_data}
use ryan_mqtt.Handler.{
  ack_handler_destroy, ack_list_remove_to_ack_list, ack_list_remove_to_user_ack_list,
}
use ryan_mqtt.Event.{event_machine}
use ryan_mqtt.Public.{ack_count_warning}

-- The key of an awaited acknowledgement.
unfoldable pub awaits : ℕ → ℕ → AckHandler → Bool
awaits packet_type packet_id h = packet_id == h.packet_id && packet_type == h.packet_type

-- `RyanMqttAckListNodeFind`; `none` is RyanMqttNoRescourceError.
unfoldable pub ack_list_node_find : ℕ → ℕ → Bool → M (Option AckHandler)
ack_list_node_find packet_type packet_id remove_on_match w =
    elim (find_at (awaits packet_type packet_id) w.client.ack_handler_list) [
      | none ↦ (none, w)
      | some (before, h, after) ↦
          (some h, if remove_on_match then ack_list_remove_to_ack_list before after w else w)
    ]

-- `RyanMqttAckListNodeFindByUserAckList`
pub ack_list_node_find_by_user_ack_list : ℕ → ℕ → Bool → M (Option AckHandler)
ack_list_node_find_by_user_ack_list packet_type packet_id remove_on_match w =
    elim (find_at (awaits packet_type packet_id) w.client.user_ack_handler_list) [
      | none ↦ (none, w)
      | some (before, h, after) ↦
          (some h, if remove_on_match then ack_list_remove_to_user_ack_list before after w else w)
    ]

-- `RyanMqttAckListAddToAckList`: the count is a `uint16_t`.
pub ack_list_add_to_ack_list : Env → AckHandler → World → World
ack_list_add_to_ack_list env h w =
    let count = (w.client.ack_handler_count + 1) % 2 ^ 16 in
    let v = record w {
      client = record w.client {
        ack_handler_list = w.client.ack_handler_list ++ h ∷ [];
        ack_handler_count = count;
      };
    } in
    if leb w.client.config.ack_handler_count_warning count
    then event_machine env ack_count_warning (count_data count) v
    else v

-- The loop of `RyanMqttClearAckSession`. A round that goes on takes a node off one of the lists.
clear_loop : ℕ → ℕ → ℕ → World → World
clear_loop packet_type packet_id zero w = w
clear_loop packet_type packet_id (suc rounds) w =
    let (in_user, w1) = ack_list_node_find_by_user_ack_list packet_type packet_id true w in
    elim in_user [
      | some h ↦ clear_loop packet_type packet_id rounds (ack_handler_destroy h w1)
      | none ↦
          let (in_mqtt, w2) = ack_list_node_find packet_type packet_id true w1 in
          elim in_mqtt [
            | some h ↦ clear_loop packet_type packet_id rounds (ack_handler_destroy h w2)
            | none ↦ w2
          ]
    ]

-- `RyanMqttClearAckSession`
pub clear_ack_session : ℕ → ℕ → World → World
clear_ack_session packet_type packet_id w =
    clear_loop packet_type packet_id
      (length w.client.user_ack_handler_list + length w.client.ack_handler_list + 1) w
