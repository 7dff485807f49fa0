-- ===== src/Publish/Steady.antt =====
-- Publishing leaves the settings alone.
use ryan_mqtt.Prelude.{List, true, arith, ℕ}
use ryan_mqtt.Public.{msg_invalid_packet_id}
use ryan_mqtt.Client.{AckHandler}
use ryan_mqtt.Platform.{Env}
use ryan_mqtt.World.{World, free, malloc}
use ryan_mqtt.World.Steady.{Steady}
use ryan_mqtt.PacketId.{get_next_packet_id}
use ryan_mqtt.Handler.{
  ack_handler_create, ack_list_add_to_user_ack_list, msg_handler_create, msg_handler_destroy,
}
use ryan_mqtt.Handler.Create.{ack_handler_create_cases, msg_handler_create_cases, new_ack_handler}
use ryan_mqtt.Ack.Clear.{clear_ack_session_lem}
use ryan_mqtt.Network.{send_packet}
use ryan_mqtt.Network.Effect.{send_packet-Sends}
use ryan_mqtt.Publish.{
  PublishRequest, awaited_type, publish_info, publish_packet, publish_with_user_data, send_awaited,
  send_once, send_until_acked, text_of,
}
use ryan_mqtt.Publish.Effect.{handler_of}

module _ (env : Env) where
  send_awaited-Steady :
      (packet_type packet_id : ℕ) (h : AckHandler) (w : World)
      → Steady w (send_awaited env packet_type packet_id h w).1
  unfolding send_awaited ack_list_add_to_user_ack_list
  send_awaited-Steady packet_type packet_id h w =
      let w1 = ack_list_add_to_user_ack_list h w in
      let w2 = (send_packet env h.packet w1).1 in
      ground
        (arith, send_packet-Sends env h.packet w1, clear_ack_session_lem packet_type packet_id w2)

  send_until_acked-Steady :
      (r : PublishRequest) (packet_id : ℕ) (buffer : List ℕ) (w : World)
      → Steady w (send_until_acked env r packet_id buffer w).1
  unfolding send_until_acked free msg_handler_destroy
  send_until_acked-Steady r packet_id buffer w =
      let m = handler_of r in
      let w1 =
        (msg_handler_create env (text_of r.topic) msg_invalid_packet_id r.qos r.user_data w).1 in
      let w2 = (ack_handler_create env (awaited_type r.qos) packet_id buffer m true w1).1 in
      let h = new_ack_handler env (awaited_type r.qos) packet_id buffer m true w1 in
      ground (
        arith,
        msg_handler_create_cases env (text_of r.topic) msg_invalid_packet_id r.qos r.user_data w,
        ack_handler_create_cases env (awaited_type r.qos) packet_id buffer m true w1,
        send_awaited-Steady (awaited_type r.qos) packet_id h w2,
      )

  publish_packet-Steady : (r : PublishRequest) (w : World) → Steady w (publish_packet env r w).1
  unfolding publish_packet send_once free get_next_packet_id
  publish_packet-Steady r w =
      let (id, w1) = get_next_packet_id w in
      ground (
        arith,
        send_packet-Sends env (env.serialize_publish (publish_info r) 0).buffer w,
        send_until_acked-Steady r id (env.serialize_publish (publish_info r) id).buffer w1,
      )

  pub publish_with_user_data-Steady :
      (r : PublishRequest) (w : World) → Steady w (publish_with_user_data env r w).1
  unfolding publish_with_user_data malloc
  publish_with_user_data-Steady r w = ground (arith, publish_packet-Steady r (malloc env w).1)
