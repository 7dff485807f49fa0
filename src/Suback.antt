-- ===== src/Suback.antt =====
-- mqttclient/RyanMqttThreadProcessPacket.c, lines 256 to 467: SUBACK, UNSUBACK, and taking over
-- the handlers that the user's calls left.
pub mod Balance
pub mod Steady
use ryan_mqtt.Client.{AckHandler, MsgHandler}
use ryan_mqtt.Prelude.{
  Bool, List, [], drop, false, get_or, if◌then◌else◌, leb, none, not, some, suc, true, ℕ, ◌++◌, ◌+◌,
  ◌-◌, ◌==◌, ◌∷◌,
}
use ryan_mqtt.Platform.{
  Env, PacketInfo, Status, mqtt_need_more_bytes, mqtt_other, mqtt_server_refused, mqtt_success,
}
use ryan_mqtt.Public.{
  Error, msg_invalid_packet_id, packet_type_suback, packet_type_unsuback, qos2, subscribed,
  subscribed_failed, un_subscribed,
}
use ryan_mqtt.World.{M, World, msg_data}
use ryan_mqtt.Handler.{
  ack_handler_destroy, ack_list_remove_to_ack_list, ack_list_remove_to_user_ack_list,
  msg_handler_destroy, msg_handler_remove_to_msg_list,
}
use ryan_mqtt.Ack.{ack_list_add_to_ack_list, clear_ack_session}
use ryan_mqtt.Event.{event_machine}
use ryan_mqtt.Packet.{is_success}
use ryan_mqtt.Msg.{msg_handler_find, msg_handler_find_and_destroy_by_packet_id}

-- The number of subscriptions that wait for an answer to a packet.
pub count_waiting : ℕ → List MsgHandler → ℕ
count_waiting packet_id [] = 0
count_waiting packet_id (m ∷ ms) =
    if packet_id == m.packet_id
    then suc (count_waiting packet_id ms)
    else count_waiting packet_id ms

-- The loop that drops all of them.
pub drop_waiting : ℕ → (before rest : List MsgHandler) → World → World
drop_waiting packet_id before [] w = w
drop_waiting packet_id before (m ∷ rest) w =
    let kept = drop_waiting packet_id (before ++ m ∷ []) rest w in
    let dropped =
      drop_waiting packet_id before rest
        (msg_handler_destroy m (msg_handler_remove_to_msg_list before rest w)) in
    if packet_id == m.packet_id then dropped else kept

-- `*msgHandler = m` for a handler in the list of subscriptions.
abbrev write_msg_handler :
    (before : List MsgHandler) → MsgHandler → (after : List MsgHandler) → World → World
write_msg_handler before m after w = record w {
  client = record w.client { msg_handler_list = before ++ m ∷ after };
}

-- What the server granted for one topic: an update of the subscription, or its removal.
grant_one :
    Env
    → MsgHandler
    → ℕ
    → (before : List MsgHandler) → MsgHandler
    → (after : List MsgHandler) → World
    → World
grant_one env asked code before m after w =
    if leb code qos2
    then event_machine env subscribed (msg_data asked) (
        write_msg_handler before (record m { qos = code; packet_id = msg_invalid_packet_id }) after
          w)
    else event_machine env subscribed_failed (msg_data asked)
        (msg_handler_destroy m (msg_handler_remove_to_msg_list before after w))

-- One handler with the packet's identifier, up to the label `__next`; the number is `ackMsgIndex`.
grant : Env → List ℕ → AckHandler → ℕ → World → ℕ × World
unfolding grant_one
grant env codes h index w =
    if not (h.packet_type == packet_type_suback)
    then (index, w)
    else let asked = h.msg_handler in
      let w1 = msg_handler_find_and_destroy_by_packet_id asked.topic asked.packet_id true w in
      elim (msg_handler_find asked.topic false w1) [
        | none ↦ (index, w1)
        | some (before, m, after) ↦
            (index + 1, grant_one env asked (get_or codes index 0) before m after w1)
      ]

-- The loop over the awaited acknowledgements; `before` are the nodes that it left in the list.
grant_loop : Env → List ℕ → ℕ → ℕ → (before rest : List AckHandler) → World → World
unfolding grant
grant_loop env codes packet_id index before [] w = w
grant_loop env codes packet_id index before (h ∷ rest) w =
    let kept = grant_loop env codes packet_id index (before ++ h ∷ []) rest w in
    let (index', w1) = grant env codes h index w in
    let dropped =
      grant_loop env codes packet_id index' before rest
        (ack_handler_destroy h (ack_list_remove_to_ack_list before rest w1)) in
    if packet_id == h.packet_id then dropped else kept

abbrev suback_status : Status → Bool
suback_status mqtt_success = true
suback_status mqtt_server_refused = true
suback_status mqtt_need_more_bytes = false
suback_status mqtt_other = false

-- `RyanMqttSubackHandler`. MQTT_DeserializeAck sees to a remaining length of at least 3.
pub suback_handler : Env → PacketInfo → M Error
unfolding drop_waiting grant_loop
suback_handler env info w =
    let d = env.deserialize_ack info in
    let expected = count_waiting d.packet_id w.client.msg_handler_list in
    if not (suback_status d.status)
    then (Error.deserialize_packet, w)
    else if not (expected == info.remaining_length - 2)
    then (let w1 = clear_ack_session packet_type_suback d.packet_id w in
        (Error.no_rescource, drop_waiting d.packet_id [] w1.client.msg_handler_list w1))
    else (
      Error.success,
      grant_loop env (drop 2 info.remaining_data) d.packet_id 0 [] w.client.ack_handler_list w,
    )

-- One handler with the packet's identifier, up to the label `__next`.
release_one : Env → AckHandler → World → World
release_one env h w =
    let asked = h.msg_handler in
    if not (h.packet_type == packet_type_unsuback)
    then w
    else elim (msg_handler_find asked.topic false w) [
      | none ↦ event_machine env un_subscribed (msg_data asked) w
      | some (before, m, after) ↦
          event_machine env un_subscribed (msg_data (record asked { qos = m.qos }))
            (msg_handler_destroy m (msg_handler_remove_to_msg_list before after w))
    ]

release_loop : Env → ℕ → (before rest : List AckHandler) → World → World
unfolding release_one
release_loop env packet_id before [] w = w
release_loop env packet_id before (h ∷ rest) w =
    let kept = release_loop env packet_id (before ++ h ∷ []) rest w in
    let dropped =
      release_loop env packet_id before rest
        (ack_handler_destroy h (ack_list_remove_to_ack_list before rest (release_one env h w))) in
    if packet_id == h.packet_id then dropped else kept

-- `RyanMqttUnSubackHandler`
pub un_suback_handler : Env → PacketInfo → M Error
unfolding release_loop
un_suback_handler env info w =
    let d = env.deserialize_ack info in
    if not (is_success d.status)
    then (Error.serialize_packet, w)
    else (Error.success, release_loop env d.packet_id [] w.client.ack_handler_list w)

sync_loop : Env → List AckHandler → World → World
sync_loop env [] w = w
sync_loop env (h ∷ rest) w =
    sync_loop env rest (ack_list_add_to_ack_list env h (ack_list_remove_to_user_ack_list [] rest w))

-- `RyanMqttSyncUserAckHandle`
pub sync_user_ack_handle : Env → World → World
unfolding sync_loop
sync_user_ack_handle env w = sync_loop env w.client.user_ack_handler_list w
