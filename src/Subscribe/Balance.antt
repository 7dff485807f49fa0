-- ===== src/Subscribe/Balance.antt =====
-- Subscribing neither leaks heap blocks nor frees one twice.
use ryan_mqtt.Prelude.{List, [], arith, false, length-append, map, ℕ, ◌+◌, ◌∷◌, ◌≡◌}
use ryan_mqtt.Public.{Error, packet_type_suback}
use ryan_mqtt.Client.{owned}
use ryan_mqtt.Platform.{Env, SubscribeInfo}
use ryan_mqtt.World.{Balanced, World, free, malloc}
use ryan_mqtt.PacketId.{get_next_packet_id}
use ryan_mqtt.Handler.{
  ack_list_add_to_user_ack_list, msg_handler_add_to_msg_list, msg_handler_create,
}
use ryan_mqtt.Handler.Create.{msg_handler_create_cases}
use ryan_mqtt.Msg.{msg_handler_find_and_destroy_by_packet_id}
use ryan_mqtt.Msg.Filter.{msg_handler_find_and_destroy_by_packet_id-Balanced}
use ryan_mqtt.Ack.{clear_ack_session}
use ryan_mqtt.Network.{send_packet}
use ryan_mqtt.Network.Effect.{send_packet-Sends}
use ryan_mqtt.Publish.Balance.{ack_list_add_to_user_ack_list-owned, clear_ack_session-Balanced}
use ryan_mqtt.Subscribe.Await.{await_topic_cases, awaited_handler, topic_handler}
use ryan_mqtt.Subscribe.{
  SubscribeData, add_topics, await_topic, await_topics, end_subscribe, remove_topics,
  subscribe_info, subscribe_many, subscribe_packet, subscribe_topics,
}

module _ (env : Env) where
  pub await_topic-Balanced :
      (packet_type packet_id : ℕ) (s : SubscribeInfo) (w : World)
      → Balanced 0 w (await_topic env packet_type packet_id s w).1
  unfolding ack_list_add_to_user_ack_list
  await_topic-Balanced packet_type packet_id s w =
      let w1 : World = record w { tick = w.tick + 1; mallocs = w.mallocs + 1 } in
      let w2 : World = record w { tick = w.tick + 3; mallocs = w.mallocs + 2 } in
      ground (
        arith,
        await_topic_cases env packet_type packet_id s w,
        ack_list_add_to_user_ack_list-owned (awaited_handler env packet_type packet_id s w1) w2,
      )

  pub await_topics-Balanced :
      (packet_type packet_id : ℕ) (infos : List SubscribeInfo) (w : World)
      → Balanced 0 w (await_topics env packet_type packet_id infos w).1
  unfolding await_topics
  await_topics-Balanced packet_type packet_id [] w = ground arith
  await_topics-Balanced packet_type packet_id (s ∷ rest) w =
      let w1 = (await_topic env packet_type packet_id s w).1 in
      ground (
        arith,
        await_topic-Balanced packet_type packet_id s w,
        await_topics-Balanced packet_type packet_id rest w1,
      )

  add_topics-Balanced :
      (packet_id : ℕ) (infos : List SubscribeInfo) (w : World)
      → Balanced 0 w (add_topics env packet_id infos w).1
  unfolding add_topics msg_handler_add_to_msg_list
  add_topics-Balanced packet_id [] w = ground arith
  add_topics-Balanced packet_id (s ∷ rest) w =
      let m = topic_handler packet_id s in
      let w1 = (msg_handler_create env s.topic_filter packet_id s.qos 0 w).1 in
      ground (
        arith,
        msg_handler_create_cases env s.topic_filter packet_id s.qos 0 w,
        length-append w.client.msg_handler_list (m ∷ []),
        add_topics-Balanced packet_id rest (msg_handler_add_to_msg_list m w1),
      )

remove_topics-Balanced :
    (packet_id : ℕ) (infos : List SubscribeInfo) (w : World)
    → Balanced 0 w (remove_topics packet_id infos w)
unfolding remove_topics
remove_topics-Balanced packet_id [] w = ground arith
remove_topics-Balanced packet_id (s ∷ rest) w =
    let v = msg_handler_find_and_destroy_by_packet_id s.topic_filter packet_id false w in
    ground (
      arith,
      msg_handler_find_and_destroy_by_packet_id-Balanced s.topic_filter packet_id false w,
      remove_topics-Balanced packet_id rest v,
    )

-- The two buffers are the caller's at the start.
end_subscribe-Balanced :
    (packet_id : ℕ) (infos : List SubscribeInfo) (e : Error) (w : World)
    → let v = (end_subscribe packet_id infos e w).1 in
      (v.mallocs + w.frees + owned w.client + 2 ≡ w.mallocs + v.frees + owned v.client)
unfolding end_subscribe free
end_subscribe-Balanced packet_id infos e w =
    let w1 = clear_ack_session packet_type_suback packet_id w in
    ground (
      arith,
      clear_ack_session-Balanced packet_type_suback packet_id w,
      remove_topics-Balanced packet_id infos w1,
    )

module _ (env : Env) where
  subscribe_topics-Balanced :
      (packet_id : ℕ) (infos : List SubscribeInfo) (packet : List ℕ) (w : World)
      → let v = (subscribe_topics env packet_id infos packet w).1 in
        (v.mallocs + w.frees + owned w.client + 2 ≡ w.mallocs + v.frees + owned v.client)
  unfolding subscribe_topics free
  subscribe_topics-Balanced packet_id infos packet w =
      let w1 = (await_topics env packet_type_suback packet_id infos w).1 in
      let w2 = (add_topics env packet_id infos w1).1 in
      let (e, w3) = send_packet env packet w2 in
      ground (
        arith,
        await_topics-Balanced env packet_type_suback packet_id infos w,
        add_topics-Balanced env packet_id infos w1,
        send_packet-Sends env packet w2,
        clear_ack_session-Balanced packet_type_suback packet_id w1,
        end_subscribe-Balanced packet_id infos Error.not_enough_mem w2,
        end_subscribe-Balanced packet_id infos e w3,
      )

  -- Whatever the topics are, and whatever the network, the allocator and the serializer answer, also
  -- when the memory is gone in the middle: subscribing changes the number of live heap blocks exactly
  -- as the number of blocks that the session owns.
  pub subscribe_many-Balanced :
      (ds : List SubscribeData) (w : World) → Balanced 0 w (subscribe_many env ds w).1
  unfolding subscribe_many subscribe_packet malloc free get_next_packet_id
  subscribe_many-Balanced ds w =
      let w2 = (malloc env (malloc env w).1).1 in
      let infos = map subscribe_info ds in
      let (id, w3) = get_next_packet_id w2 in
      ground
        (arith, subscribe_topics-Balanced id infos (env.serialize_subscribe infos id).buffer w3)
