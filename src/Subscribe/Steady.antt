-- ===== src/Subscribe/Steady.antt =====
-- Subscribing and unsubscribing leave the settings alone.
use ryan_mqtt.Prelude.{List, arith, map, ℕ}
use ryan_mqtt.Public.{Error, packet_type_suback}
use ryan_mqtt.Platform.{Env, SubscribeInfo}
use ryan_mqtt.World.{World, free, malloc}
use ryan_mqtt.World.Steady.{Steady}
use ryan_mqtt.PacketId.{get_next_packet_id}
use ryan_mqtt.Ack.{clear_ack_session}
use ryan_mqtt.Ack.Clear.{clear_ack_session_lem}
use ryan_mqtt.Network.{send_packet}
use ryan_mqtt.Network.Effect.{send_packet-Sends}
use ryan_mqtt.Subscribe.{
  SubscribeData, add_topics, await_topics, end_subscribe, subscribe_info, subscribe_many,
  subscribe_packet, subscribe_topics,
}
use ryan_mqtt.Subscribe.Await.{Awaited, await_topics-Awaited, awaited}
use ryan_mqtt.Subscribe.Remove.{Added, add_topics-Added, added, remove_topics_lem}
use ryan_mqtt.Prelude.{Bool}

pub Awaited-Steady :
    {packet_type packet_id : ℕ} {infos : List SubscribeInfo} (w v : World) (r : Bool)
    → Awaited packet_type packet_id infos w v r
    → Steady w v
Awaited-Steady w v r (awaited new user all made same) = ground (arith, same)

Added-Steady :
    {packet_id : ℕ} {infos : List SubscribeInfo} (w v : World) (r : Bool)
    → Added packet_id infos w v r
    → Steady w v
Added-Steady w v r (added done rest split full place same) = ground (arith, same)

end_subscribe-Steady :
    (packet_id : ℕ) (infos : List SubscribeInfo) (e : Error) (w : World)
    → Steady w (end_subscribe packet_id infos e w).1
unfolding end_subscribe free
end_subscribe-Steady packet_id infos e w = ground (
  arith,
  clear_ack_session_lem packet_type_suback packet_id w,
  remove_topics_lem packet_id infos (clear_ack_session packet_type_suback packet_id w),
)

module _ (env : Env) where
  subscribe_topics-Steady :
      (packet_id : ℕ) (infos : List SubscribeInfo) (packet : List ℕ) (w : World)
      → Steady w (subscribe_topics env packet_id infos packet w).1
  unfolding subscribe_topics free
  subscribe_topics-Steady packet_id infos packet w =
      let (r1, w1) = await_topics env packet_type_suback packet_id infos w in
      let (r2, w2) = add_topics env packet_id infos w1 in
      let (e, w3) = send_packet env packet w2 in
      let s1 =
        Awaited-Steady w w1 r1 (await_topics-Awaited env packet_type_suback packet_id infos w) in
      let s2 = Added-Steady w1 w2 r2 (add_topics-Added env packet_id infos w1) in
      let s3 = (send_packet-Sends env packet w2).steady in
      ground (
        arith,
        s1,
        s2,
        s3,
        clear_ack_session_lem packet_type_suback packet_id w1,
        end_subscribe-Steady packet_id infos Error.not_enough_mem w2,
        end_subscribe-Steady packet_id infos e w3,
      )

  pub subscribe_many-Steady :
      (ds : List SubscribeData) (w : World) → Steady w (subscribe_many env ds w).1
  unfolding subscribe_many subscribe_packet malloc free get_next_packet_id
  subscribe_many-Steady ds w =
      let infos = map subscribe_info ds in
      let (id, w3) = get_next_packet_id (malloc env (malloc env w).1).1 in
      ground (arith, subscribe_topics-Steady id infos (env.serialize_subscribe infos id).buffer w3)
