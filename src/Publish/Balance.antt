-- ===== src/Publish/Balance.antt =====
-- Publishing neither leaks heap blocks nor frees one twice.
use ryan_mqtt.Prelude.{Bool-cases, List, [], arith, inl, inr, true, ℕ, ◌+◌, ◌≡◌, ◌==◌, ◌∷◌}
use ryan_mqtt.Public.{msg_invalid_packet_id, qos0}
use ryan_mqtt.Client.{AckHandler, MsgHandler, handler_blocks, owned}
use ryan_mqtt.Platform.{Env}
use ryan_mqtt.World.{Balanced, World, free, malloc}
use ryan_mqtt.PacketId.{get_next_packet_id}
use ryan_mqtt.Handler.{
  ack_handler_create, ack_list_add_to_user_ack_list, msg_handler_create, msg_handler_destroy,
}
use ryan_mqtt.Handler.Balance.{ack_blocks-append, ack_blocks-keep-reject}
use ryan_mqtt.Handler.Create.{ack_handler_create_cases, msg_handler_create_cases, new_ack_handler}
use ryan_mqtt.Ack.{awaits, clear_ack_session}
use ryan_mqtt.Ack.Clear.{clear_ack_session_lem}
use ryan_mqtt.Network.{send_packet}
use ryan_mqtt.Network.Effect.{send_packet-Sends}
use ryan_mqtt.Publish.{
  PublishRequest, awaited_type, publish_info, publish_packet, publish_with_user_data, send_awaited,
  send_once, send_until_acked, text_of,
}

pub clear_ack_session-Balanced :
    (packet_type packet_id : ℕ) (w : World)
    → Balanced 0 w (clear_ack_session packet_type packet_id w)
clear_ack_session-Balanced packet_type packet_id w =
    let p = awaits packet_type packet_id in
    ground (
      arith,
      clear_ack_session_lem packet_type packet_id w,
      ack_blocks-keep-reject p w.client.ack_handler_list,
      ack_blocks-keep-reject p w.client.user_ack_handler_list,
    )

pub ack_list_add_to_user_ack_list-owned :
    (h : AckHandler) (w : World)
    → owned (ack_list_add_to_user_ack_list h w).client ≡ owned w.client + handler_blocks h
unfolding ack_list_add_to_user_ack_list
ack_list_add_to_user_ack_list-owned h w =
    ground (arith, ack_blocks-append w.client.user_ack_handler_list (h ∷ []))

module _ (env : Env) where
  -- The packet is the caller's at the start.
  send_once-Balanced :
      (buffer : List ℕ) (w : World)
      → let v = (send_once env buffer w).1 in
        (v.mallocs + w.frees + owned w.client + 1 ≡ w.mallocs + v.frees + owned v.client)
  unfolding send_once free
  send_once-Balanced buffer w = ground (arith, send_packet-Sends env buffer w)

  send_awaited-Balanced :
      (packet_type packet_id : ℕ) (h : AckHandler) (w : World)
      → let v = (send_awaited env packet_type packet_id h w).1 in
        (v.mallocs + w.frees + owned w.client + handler_blocks h
          ≡ w.mallocs + v.frees + owned v.client)
  unfolding send_awaited ack_list_add_to_user_ack_list
  send_awaited-Balanced packet_type packet_id h w =
      let w1 = ack_list_add_to_user_ack_list h w in
      let w2 = (send_packet env h.packet w1).1 in
      ground (
        arith,
        ack_list_add_to_user_ack_list-owned h w,
        send_packet-Sends env h.packet w1,
        clear_ack_session-Balanced packet_type packet_id w2,
      )

  send_until_acked-Balanced :
      (r : PublishRequest) (packet_id : ℕ) (buffer : List ℕ) (w : World)
      → let v = (send_until_acked env r packet_id buffer w).1 in
        (v.mallocs + w.frees + owned w.client + 1 ≡ w.mallocs + v.frees + owned v.client)
  unfolding send_until_acked free msg_handler_destroy
  send_until_acked-Balanced r packet_id buffer w =
      let packet_type = awaited_type r.qos in
      let topic = text_of r.topic in
      let m : MsgHandler = record {
        user_data = r.user_data;
        topic = topic;
        qos = r.qos;
        packet_id = msg_invalid_packet_id;
      } in
      let w1 = (msg_handler_create env topic msg_invalid_packet_id r.qos r.user_data w).1 in
      let w2 = (ack_handler_create env packet_type packet_id buffer m true w1).1 in
      let h = new_ack_handler env packet_type packet_id buffer m true w1 in
      ground (
        arith,
        msg_handler_create_cases env topic msg_invalid_packet_id r.qos r.user_data w,
        ack_handler_create_cases env packet_type packet_id buffer m true w1,
        send_awaited-Balanced packet_type packet_id h w2,
      )

  publish_packet-Balanced :
      (r : PublishRequest) (w : World)
      → let v = (publish_packet env r w).1 in
        (v.mallocs + w.frees + owned w.client + 1 ≡ w.mallocs + v.frees + owned v.client)
  unfolding publish_packet free get_next_packet_id
  publish_packet-Balanced r w = elim (Bool-cases (r.qos == qos0)) [
    | inl once ↦
        ground (arith, send_once-Balanced (env.serialize_publish (publish_info r) 0).buffer w)
    | inr more ↦
        let (id, w1) = get_next_packet_id w in
        ground (
          arith,
          send_until_acked-Balanced r id (env.serialize_publish (publish_info r) id).buffer w1,
        )
  ]

  -- Publishing changes the number of live heap blocks exactly as the number of blocks that the session
  -- owns.
  pub publish_with_user_data-Balanced :
      (r : PublishRequest) (w : World) → Balanced 0 w (publish_with_user_data env r w).1
  unfolding publish_with_user_data malloc
  publish_with_user_data-Balanced r w = ground (arith, publish_packet-Balanced r (malloc env w).1)
