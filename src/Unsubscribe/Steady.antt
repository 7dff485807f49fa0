-- ===== src/Unsubscribe/Steady.antt =====
-- Unsubscribing leaves the settings alone.
use ryan_mqtt.Prelude.{List, Option, arith, map, ℕ}
use ryan_mqtt.Public.{packet_type_unsuback}
use ryan_mqtt.Platform.{Env, SubscribeInfo}
use ryan_mqtt.World.{World, free, malloc}
use ryan_mqtt.World.Steady.{Steady}
use ryan_mqtt.PacketId.{get_next_packet_id}
use ryan_mqtt.Ack.Clear.{clear_ack_session_lem}
use ryan_mqtt.Network.{send_packet}
use ryan_mqtt.Network.Effect.{send_packet-Sends}
use ryan_mqtt.Subscribe.{await_topics}
use ryan_mqtt.Subscribe.Await.{await_topics-Awaited}
use ryan_mqtt.Subscribe.Steady.{Awaited-Steady}
use ryan_mqtt.Unsubscribe.{
  un_subscribe_many, unsubscribe_info, unsubscribe_packet, unsubscribe_topics,
}
use ryan_mqtt.Unsubscribe.Loop.{await_known_topics_lem, known}

module _ (env : Env) where
  unsubscribe_topics-Steady :
      (packet_id : ℕ) (infos : List SubscribeInfo) (packet : List ℕ) (w : World)
      → Steady w (unsubscribe_topics env packet_id infos packet w).1
  unfolding unsubscribe_topics free
  unsubscribe_topics-Steady packet_id infos packet w =
      let ks = known infos w in
      let (r, w1) = await_topics env packet_type_unsuback packet_id ks w in
      let w2 = (send_packet env packet w1).1 in
      let s =
        Awaited-Steady w w1 r (await_topics-Awaited env packet_type_unsuback packet_id ks w) in
      ground (
        arith,
        s,
        await_known_topics_lem env packet_id infos w,
        send_packet-Sends env packet w1,
        clear_ack_session_lem packet_type_unsuback packet_id w1,
        clear_ack_session_lem packet_type_unsuback packet_id w2,
      )

  pub un_subscribe_many-Steady :
      (topics : List (Option (List ℕ))) (w : World) → Steady w (un_subscribe_many env topics w).1
  unfolding un_subscribe_many unsubscribe_packet malloc free get_next_packet_id
  un_subscribe_many-Steady topics w =
      let infos = map unsubscribe_info topics in
      let (id, w3) = get_next_packet_id (malloc env (malloc env w).1).1 in
      ground
        (arith, unsubscribe_topics-Steady id infos (env.serialize_unsubscribe infos id).buffer w3)
