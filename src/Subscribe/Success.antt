-- ===== src/Subscribe/Success.antt =====
-- What a subscription that succeeds leaves behind.
use ryan_mqtt.Prelude.{
  All, List, append-nil, arith, refl, length, map, true, ℕ, ◌++◌, ◌<◌, ◌^◌, ◌≡◌,
}
use ryan_mqtt.Public.{Error, connect_state, packet_type_suback}
use ryan_mqtt.Client.{AckHandler}
use ryan_mqtt.Platform.{Env, SubscribeInfo}
use ryan_mqtt.World.{World, free, malloc}
use ryan_mqtt.PacketId.{get_next_packet_id, next_id}
use ryan_mqtt.Session.{get_client_state}
use ryan_mqtt.Ack.{awaits}
use ryan_mqtt.Network.{send_packet}
use ryan_mqtt.Network.Reads.{send_packet-success}
use ryan_mqtt.Network.Wire.{AnswersCount, send_packet-wire}
use ryan_mqtt.Subscribe.{
  SubscribeData, add_topics, await_topics, end_subscribe, is_valid_subscription, all_pass,
  subscribe_info, subscribe_many, subscribe_packet, subscribe_topics,
}
use ryan_mqtt.Subscribe.Await.{Awaited, await_topics-Awaited, awaited, topic_handler}
use ryan_mqtt.Subscribe.Remove.{Added, add_topics-Added, added}

-- The session with one subscription more for each topic, and one handler that waits for the answer.
pub data Subscribed (packet_id : ℕ) (infos : List SubscribeInfo) (packet : List ℕ) (w v : World)
    : Type 0 where
  subscribed :
      (new : List AckHandler)
      → v.client.user_ack_handler_list ≡ w.client.user_ack_handler_list ++ new
      → All (λ h. awaits packet_type_suback packet_id h ≡ true) new
      → map (λ h. h.msg_handler) new ≡ map (topic_handler packet_id) infos
      → v.client.msg_handler_list ≡ w.client.msg_handler_list ++ map (topic_handler packet_id) infos
      → v.client.ack_handler_list ≡ w.client.ack_handler_list
      → v.wire ≡ w.wire ++ packet
      → Subscribed packet_id infos packet w v

module _ (env : Env) (count : AnswersCount env) (packet_id : ℕ) (infos : List SubscribeInfo)
    (packet : List ℕ) (small : length packet < 2 ^ 32) (w : World) where
  both_loops :
      (w1 w2 : World)
      → Awaited packet_type_suback packet_id infos w w1 true
      → Added packet_id infos w1 w2 true
      → (send_packet env packet w2).0 ≡ Error.success
      → Subscribed packet_id infos packet w (free (free (send_packet env packet w2).1))
  unfolding free
  both_loops w1 w2 (awaited new user all made same) (added done rest split full place same2) e =
      let wire = send_packet-wire env count packet small w2 in
      let s = send_packet-success env packet w2 e in
      let none_left : infos ≡ done = ground (arith, split, full, append-nil done) in
      subscribed new (ground (arith, user, same2, s)) all (made refl)
        (ground (arith, same, place, s, none_left)) (ground (arith, same, same2, s))
        (ground (arith, wire, same, same2))

  subscribe_topics-Subscribed :
      (subscribe_topics env packet_id infos packet w).0 ≡ Error.success
      → Subscribed packet_id infos packet w (subscribe_topics env packet_id infos packet w).1
  unfolding subscribe_topics end_subscribe
  subscribe_topics-Subscribed ok =
      let (awaited_all, w1) = await_topics env packet_type_suback packet_id infos w in
      let (added_all, w2) = add_topics env packet_id infos w1 in
      let (e, w3) = send_packet env packet w2 in
      let a = await_topics-Awaited env packet_type_suback packet_id infos w in
      let b = add_topics-Added env packet_id infos w1 in
      let y : awaited_all ≡ true = ground (arith, ok) in
      let y' : added_all ≡ true = ground (arith, ok) in
      let s : e ≡ Error.success = ground (arith, ok) in
      simp (y, y', s) (both_loops w1 w2 (rw y at a) (rw y' at b) s)

-- The lists and the wire are all that counts of the world before.
Subscribed-from :
    {packet_id : ℕ} {infos : List SubscribeInfo} {packet : List ℕ} (w u v : World)
    → u.client ≡ record w.client { packet_id = u.client.packet_id }
    → u.wire ≡ w.wire
    → Subscribed packet_id infos packet u v
    → Subscribed packet_id infos packet w v
Subscribed-from w u v c e (subscribed new user all made msgs acks wire) =
    subscribed new (ground (arith, c, user)) all made (ground (arith, c, msgs))
      (ground (arith, c, acks)) (ground (arith, e, wire))

-- If a subscription answers success, there was at least one topic, all were valid, the client was
-- connected, and the session has for each topic, in order and at the end, one subscription more
-- under the new packet identifier, and on the user's list one handler that waits for the SUBACK
-- with that identifier; the whole SUBSCRIBE packet went to the network behind all that went there
-- before. This supposes a platform that counts the bytes it took or answers -1, and a packet
-- shorter than 2^32.
pub subscribe_many-success :
    (env : Env) (count : AnswersCount env) (ds : List SubscribeData) (w : World)
    → let infos = map subscribe_info ds in
      let id = next_id w.client.packet_id in
      let packet = (env.serialize_subscribe infos id).buffer in
      length packet < 2 ^ 32
      → (subscribe_many env ds w).0 ≡ Error.success
      → (0 < length ds)
        × (all_pass is_valid_subscription ds ≡ true)
        × (get_client_state w ≡ connect_state)
        × Subscribed id infos packet w (subscribe_many env ds w).1
unfolding subscribe_many subscribe_packet malloc free get_next_packet_id get_client_state
subscribe_many-success env count ds w small ok =
    let infos = map subscribe_info ds in
    let (id, w3) = get_next_packet_id (malloc env (malloc env w).1).1 in
    let packet = (env.serialize_subscribe infos id).buffer in
    let done : subscribe_many env ds w ≡ subscribe_topics env id infos packet w3 =
      ground (arith, ok) in
    let s =
      subscribe_topics-Subscribed env count id infos packet small w3 (ground (arith, ok, done)) in
    (
      ground (arith, ok),
      ground (arith, ok),
      ground (arith, ok),
      rw done (Subscribed-from w w3 _ refl refl s),
    )
