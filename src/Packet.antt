-- ===== src/Packet.antt =====
-- mqttclient/RyanMqttThreadProcessPacket.c, lines 9 to 254: what the client does with an incoming
-- acknowledgement or message.
pub mod Balance
pub mod Steady
pub mod Arrival
pub mod Once
use ryan_mqtt.Client.{AckHandler, MsgData}
use ryan_mqtt.Prelude.{
  Bool, List, Option, bit_and, false, if◌then◌else◌, none, not, some, true, ℕ, ◌==◌, ◌||◌,
}
use ryan_mqtt.Platform.{
  Env, PacketInfo, PublishInfo, Status, mqtt_need_more_bytes, mqtt_other, mqtt_server_refused,
  mqtt_success,
}
use ryan_mqtt.Public.{
  Error, msg_invalid_packet_id, packet_type_puback, packet_type_pubcomp, packet_type_pubrec,
  packet_type_pubrel, published, qos0, qos1, qos2, received_data, success, unsubscribed_data,
}
use ryan_mqtt.World.{M, World, ack_data, message}
use ryan_mqtt.Handler.{
  ack_handler_create, ack_handler_destroy, msg_handler_create, msg_handler_destroy,
}
use ryan_mqtt.Ack.{ack_list_add_to_ack_list, ack_list_node_find}
use ryan_mqtt.Event.{event_machine}
use ryan_mqtt.Msg.{msg_handler_find}
use ryan_mqtt.Network.{send_packet}

abbrev pub is_success : Status → Bool
is_success mqtt_success = true
is_success mqtt_server_refused = false
is_success mqtt_need_more_bytes = false
is_success mqtt_other = false

-- `RyanMqttPubackAndPubcompPacketHandler`
pub puback_and_pubcomp_packet_handler : Env → PacketInfo → M Error
puback_and_pubcomp_packet_handler env info w =
    let d = env.deserialize_ack info in
    if not (is_success d.status)
    then (Error.serialize_packet, w)
    else let (found, w1) = ack_list_node_find (bit_and info.type 0xf0) d.packet_id true w in
      elim found [
        | none ↦ (Error.no_rescource, w1)
        | some h ↦
            (Error.success, ack_handler_destroy h (event_machine env published (ack_data h) w1))
      ]

abbrev destroy_found : Option AckHandler → World → World
destroy_found none w = w
destroy_found (some h) w = ack_handler_destroy h w

-- `RyanMqttPubrelPacketHandler`
pub pubrel_packet_handler : Env → PacketInfo → M Error
pubrel_packet_handler env info w =
    let d = env.deserialize_ack info in
    if not (is_success d.status)
    then (Error.serialize_packet, w)
    else let (found, w1) = ack_list_node_find packet_type_pubrel d.packet_id true w in
      let w2 = destroy_found found w1 in
      let s = env.serialize_ack packet_type_pubcomp d.packet_id in
      if not (is_success s.status)
      then (Error.serialize_packet, w2)
      else (Error.success, (send_packet env s.buffer w2).1)

-- The part of `RyanMqttPubrecPacketHandler` that puts a PUBCOMP handler in place of the PUBREC
-- handler `h`, which was taken off the list. On a failed allocation `h` goes back.
await_pubcomp : Env → ℕ → List ℕ → AckHandler → M Error
await_pubcomp env packet_id buffer h w =
    let m = h.msg_handler in
    let (made, w1) = msg_handler_create env m.topic msg_invalid_packet_id m.qos m.user_data w in
    elim made [
      | none ↦ (Error.not_enough_mem, ack_list_add_to_ack_list env h w1)
      | some new ↦
          let (awaited, w2) =
            ack_handler_create env packet_type_pubcomp packet_id buffer new false w1 in
          elim awaited [
            | none ↦
                (Error.not_enough_mem, ack_list_add_to_ack_list env h (msg_handler_destroy new w2))
            | some pubcomp ↦
                (Error.success, ack_handler_destroy h (ack_list_add_to_ack_list env pubcomp w2))
          ]
    ]

abbrev pub is_ok : Error → Bool
is_ok e = elim e [ success ↦ true | _ ↦ false ]

-- `RyanMqttPubrecPacketHandler`
pub pubrec_packet_handler : Env → PacketInfo → M Error
unfolding await_pubcomp
pubrec_packet_handler env info w =
    let d = env.deserialize_ack info in
    let s = env.serialize_ack packet_type_pubrel d.packet_id in
    if not (is_success d.status) || not (is_success s.status)
    then (Error.serialize_packet, w)
    else elim (ack_list_node_find packet_type_pubcomp d.packet_id false w).0 [
      | some pubcomp ↦ (Error.success, (send_packet env s.buffer w).1)
      | none ↦
          let (found, w1) = ack_list_node_find packet_type_pubrec d.packet_id true w in
          elim found [
            | none ↦ (Error.no_rescource, (send_packet env s.buffer w1).1)
            | some h ↦
                let (e, w2) = await_pubcomp env d.packet_id s.buffer h w1 in
                if is_ok e then (e, (send_packet env s.buffer w2).1) else (e, w2)
          ]
    ]

-- `msgData` of `RyanMqttPublishPacketHandler`
abbrev pub msg_data_of : PublishInfo → ℕ → MsgData
msg_data_of p packet_id = record {
  topic = p.topic_name;
  payload = p.payload;
  qos = p.qos;
  packet_id = packet_id;
  retained = p.retain;
  dup = p.dup;
}

-- The cases of the `switch` in `RyanMqttPublishPacketHandler`.
receive_qos1 : Env → MsgData → M Error
receive_qos1 env msg w =
    let w1 = event_machine env received_data (message msg) w in
    let s = env.serialize_ack packet_type_puback msg.packet_id in
    if not (is_success s.status)
    then (Error.serialize_packet, w1)
    else (Error.success, (send_packet env s.buffer w1).1)

-- The first arrival of a QoS 2 message: the callback, and a handler that awaits PUBREL.
unfoldable pub receive_first : Env → MsgData → List ℕ → M Error
receive_first env msg buffer w =
    let w1 = event_machine env received_data (message msg) w in
    let (made, w2) = msg_handler_create env msg.topic msg_invalid_packet_id msg.qos 0 w1 in
    elim made [
      | none ↦ (Error.not_enough_mem, w2)
      | some new ↦
          let (awaited, w3) =
            ack_handler_create env packet_type_pubrel msg.packet_id buffer new false w2 in
          elim awaited [
            | none ↦ (Error.not_enough_mem, msg_handler_destroy new w3)
            | some h ↦ (Error.success, ack_list_add_to_ack_list env h w3)
          ]
    ]

unfoldable pub receive_qos2 : Env → MsgData → M Error
unfolding receive_first
receive_qos2 env msg w =
    let s = env.serialize_ack packet_type_pubrec msg.packet_id in
    if not (is_success s.status)
    then (Error.serialize_packet, w)
    else elim (ack_list_node_find packet_type_pubrel msg.packet_id false w).0 [
      | some h ↦ (Error.success, (send_packet env s.buffer w).1)
      | none ↦
          let (e, w1) = receive_first env msg s.buffer w in
          if is_ok e then (e, (send_packet env s.buffer w1).1) else (e, w1)
    ]

-- `RyanMqttPublishPacketHandler`
unfoldable pub publish_packet_handler : Env → PacketInfo → M Error
unfolding receive_qos1 receive_qos2
publish_packet_handler env info w =
    let d = env.deserialize_publish info in
    let msg = msg_data_of d.publish_info d.packet_id in
    if not (is_success d.status)
    then (Error.deserialize_packet, w)
    else elim (msg_handler_find msg.topic true w) [
      | none ↦ (Error.no_rescource, event_machine env unsubscribed_data (message msg) w)
      | some place ↦
          if msg.qos == qos0
          then (Error.success, event_machine env received_data (message msg) w)
          else if msg.qos == qos1
          then receive_qos1 env msg w
          else if msg.qos == qos2
          then receive_qos2 env msg w
          else (Error.success, w)
    ]
