-- ===== src/Packet/Balance.antt =====
-- The handlers of incoming packets neither leak heap blocks nor free one twice.
use ryan_mqtt.World.{Balanced, World, free, message}
use ryan_mqtt.Platform.{Env, PacketInfo}
use ryan_mqtt.Handler.{
  ack_handler_destroy, msg_handler_destroy, msg_handler_create, ack_handler_create,
}
use ryan_mqtt.Ack.{ack_list_node_find, ack_list_add_to_ack_list}
use ryan_mqtt.Ack.Effect.{ack_list_node_find-blocks, ack_list_add_to_ack_list-blocks}
use ryan_mqtt.Prelude.{arith, bit_and, true, ℕ, List, ◌+◌, ◌≡◌, false, Option-cases, inl, inr}
use ryan_mqtt.Packet.{
  destroy_found, puback_and_pubcomp_packet_handler, pubrel_packet_handler, await_pubcomp,
  pubrec_packet_handler, receive_first, receive_qos2, receive_qos1, publish_packet_handler,
  msg_data_of,
}
use ryan_mqtt.Event.{event_machine, notify}
use ryan_mqtt.Public.{
  packet_type_pubcomp, packet_type_pubrel, msg_invalid_packet_id, packet_type_pubrec, received_data,
  packet_type_puback, unsubscribed_data,
}
use ryan_mqtt.Network.Effect.{send_packet-Sends}
use ryan_mqtt.Client.{AckHandler, owned, handler_blocks, MsgData, MsgHandler}
use ryan_mqtt.Handler.Create.{ack_handler_create_cases, new_ack_handler, msg_handler_create_cases}
use ryan_mqtt.Handler.Balance.{ack_handler_destroy_lem}
use ryan_mqtt.Event.Effect.{notify_lem}

module _ (env : Env) where
  -- Whatever the packet, the live blocks change exactly as the blocks that the session owns.
  pub puback_and_pubcomp_packet_handler-Balanced :
      (info : PacketInfo) (w : World)
      → Balanced 0 w (puback_and_pubcomp_packet_handler env info w).1
  unfolding puback_and_pubcomp_packet_handler event_machine notify ack_handler_destroy
      msg_handler_destroy free
  puback_and_pubcomp_packet_handler-Balanced info w = ground (
    arith,
    ack_list_node_find-blocks (bit_and info.type 0xf0) (env.deserialize_ack info).packet_id w,
  )

  pub pubrel_packet_handler-Balanced :
      (info : PacketInfo) (w : World) → Balanced 0 w (pubrel_packet_handler env info w).1
  unfolding pubrel_packet_handler ack_handler_destroy msg_handler_destroy free
  pubrel_packet_handler-Balanced info w =
      let d = env.deserialize_ack info in
      let r = ack_list_node_find packet_type_pubrel d.packet_id true w in
      ground (
        arith,
        ack_list_node_find-blocks packet_type_pubrel d.packet_id w,
        send_packet-Sends env (env.serialize_ack packet_type_pubcomp d.packet_id).buffer
            (destroy_found r.0 r.1),
      )

  -- The PUBREC handler `h` is the caller's at the start, and nobody's or the session's at the end.
  await_pubcomp-blocks :
      (packet_id : ℕ) (buffer : List ℕ) (h : AckHandler) (w : World)
      → let v = (await_pubcomp env packet_id buffer h w).1 in
        v.mallocs + w.frees + owned w.client + handler_blocks h
        ≡ w.mallocs + v.frees + owned v.client
  unfolding await_pubcomp msg_handler_destroy free
  await_pubcomp-blocks packet_id buffer h w =
      let m = h.msg_handler in
      let new = record m { packet_id = msg_invalid_packet_id } in
      let w1 = (msg_handler_create env m.topic msg_invalid_packet_id m.qos m.user_data w).1 in
      let made = ack_handler_create_cases env packet_type_pubcomp packet_id buffer new false w1 in
      let w2 = (ack_handler_create env packet_type_pubcomp packet_id buffer new false w1).1 in
      let pubcomp = new_ack_handler env packet_type_pubcomp packet_id buffer new false w1 in
      ground (
        arith,
        msg_handler_create_cases env m.topic msg_invalid_packet_id m.qos m.user_data w,
        made,
        ack_list_add_to_ack_list-blocks env h w1,
        ack_list_add_to_ack_list-blocks env h (msg_handler_destroy new w2),
        ack_list_add_to_ack_list-blocks env pubcomp w2,
        ack_handler_destroy_lem h (ack_list_add_to_ack_list env pubcomp w2),
      )

  pub pubrec_packet_handler-Balanced :
      (info : PacketInfo) (w : World) → Balanced 0 w (pubrec_packet_handler env info w).1
  unfolding pubrec_packet_handler
  pubrec_packet_handler-Balanced info w =
      let d = env.deserialize_ack info in
      let buffer = (env.serialize_ack packet_type_pubrel d.packet_id).buffer in
      let w1 = (ack_list_node_find packet_type_pubrec d.packet_id true w).1 in
      elim (Option-cases (ack_list_node_find packet_type_pubrec d.packet_id true w).0) [
        | inl e ↦ ground (
          arith,
          ack_list_node_find-blocks packet_type_pubrec d.packet_id w,
          send_packet-Sends env buffer w,
          send_packet-Sends env buffer w1,
        )
        | inr (h, e) ↦ ground (
          arith,
          ack_list_node_find-blocks packet_type_pubrec d.packet_id w,
          await_pubcomp-blocks d.packet_id buffer h w1,
          send_packet-Sends env buffer w,
          send_packet-Sends env buffer (await_pubcomp env d.packet_id buffer h w1).1,
        )
      ]

  receive_first-Balanced :
      (msg : MsgData) (buffer : List ℕ) (w : World)
      → Balanced 0 w (receive_first env msg buffer w).1
  unfolding receive_first msg_handler_destroy free event_machine
  receive_first-Balanced msg buffer w =
      let new : MsgHandler = record {
        user_data = 0;
        topic = msg.topic;
        qos = msg.qos;
        packet_id = msg_invalid_packet_id;
      } in
      let w1 = notify received_data (message msg) w in
      let w2 = (msg_handler_create env msg.topic msg_invalid_packet_id msg.qos 0 w1).1 in
      let w3 = (ack_handler_create env packet_type_pubrel msg.packet_id buffer new false w2).1 in
      let h = new_ack_handler env packet_type_pubrel msg.packet_id buffer new false w2 in
      ground (
        arith,
        notify_lem received_data (message msg) w,
        msg_handler_create_cases env msg.topic msg_invalid_packet_id msg.qos 0 w1,
        ack_handler_create_cases env packet_type_pubrel msg.packet_id buffer new false w2,
        ack_list_add_to_ack_list-blocks env h w3,
      )

  receive_qos2-Balanced : (msg : MsgData) (w : World) → Balanced 0 w (receive_qos2 env msg w).1
  unfolding receive_qos2
  receive_qos2-Balanced msg w =
      let buffer = (env.serialize_ack packet_type_pubrec msg.packet_id).buffer in
      ground (
        arith,
        receive_first-Balanced msg buffer w,
        send_packet-Sends env buffer w,
        send_packet-Sends env buffer (receive_first env msg buffer w).1,
      )

  receive_qos1-Balanced : (msg : MsgData) (w : World) → Balanced 0 w (receive_qos1 env msg w).1
  unfolding receive_qos1 event_machine
  receive_qos1-Balanced msg w = ground (
    arith,
    notify_lem received_data (message msg) w,
    send_packet-Sends env (env.serialize_ack packet_type_puback msg.packet_id).buffer
        (notify received_data (message msg) w),
  )

  pub publish_packet_handler-Balanced :
      (info : PacketInfo) (w : World) → Balanced 0 w (publish_packet_handler env info w).1
  unfolding publish_packet_handler event_machine
  publish_packet_handler-Balanced info w =
      let d = env.deserialize_publish info in
      let msg = msg_data_of d.publish_info d.packet_id in
      ground (
        arith,
        notify_lem received_data (message msg) w,
        notify_lem unsubscribed_data (message msg) w,
        receive_qos1-Balanced msg w,
        receive_qos2-Balanced msg w,
      )
