-- ===== src/Unsubscribe/Effect.antt =====
-- An unsubscription is all or nothing, and loses no block.
use ryan_mqtt.Prelude.{Bool-cases, List, Option, arith, false, inl, inr, map, ℕ, ◌+◌, ◌≡◌, ◌≢◌, ◌⊎◌}
use ryan_mqtt.Public.{Error, packet_type_unsuback}
use ryan_mqtt.Client.{owned}
use ryan_mqtt.Platform.{Env, SubscribeInfo}
use ryan_mqtt.World.{Balanced, World, free, malloc}
use ryan_mqtt.PacketId.{get_next_packet_id, next_id}
use ryan_mqtt.Ack.{clear_ack_session}
use ryan_mqtt.Ack.Clear.{clear_ack_session_lem}
use ryan_mqtt.Network.{send_packet}
use ryan_mqtt.Network.Effect.{NoSession, SameSession, send_packet-Sends}
use ryan_mqtt.Packet.{is_ok}
use ryan_mqtt.Publish.Balance.{clear_ack_session-Balanced}
use ryan_mqtt.Subscribe.Await.{Awaited, await_topics-Awaited, awaited}
use ryan_mqtt.Subscribe.Balance.{await_topics-Balanced}
use ryan_mqtt.Subscribe.Effect.{IsFresh, clear_ack_session-added}
use ryan_mqtt.Unsubscribe.{
  await_known_topics, un_subscribe_many, unsubscribe_info, unsubscribe_packet, unsubscribe_topics,
}
use ryan_mqtt.Unsubscribe.Loop.{await_known_topics_lem, known}

module _ (env : Env) (packet_id : ℕ) (infos : List SubscribeInfo) (packet : List ℕ)
    (w : World) where
  unsubscribe_topics-Balanced :
      let v = (unsubscribe_topics env packet_id infos packet w).1 in
      (v.mallocs + w.frees + owned w.client + 2 ≡ w.mallocs + v.frees + owned v.client)
  unfolding unsubscribe_topics free
  unsubscribe_topics-Balanced =
      let w1 = (await_known_topics env packet_id infos w).1 in
      let w2 = (send_packet env packet w1).1 in
      ground (
        arith,
        await_known_topics_lem env packet_id infos w,
        await_topics-Balanced env packet_type_unsuback packet_id (known infos w) w,
        send_packet-Sends env packet w1,
        clear_ack_session-Balanced packet_type_unsuback packet_id w1,
        clear_ack_session-Balanced packet_type_unsuback packet_id w2,
      )

  cleared-Undone :
      (w1 w2 : World) {r : _}
      → IsFresh packet_type_unsuback packet_id w
      → Awaited packet_type_unsuback packet_id (known infos w) w w1 r
      → SameSession w1 w2 ⊎ NoSession w2
      → let v = free (free (clear_ack_session packet_type_unsuback packet_id w2)) in
        SameSession w v ⊎ NoSession v
  unfolding free
  cleared-Undone w1 w2 fresh (awaited new user all made same) (inl s) =
      let c =
        clear_ack_session-added packet_type_unsuback packet_id new w w2 fresh all
          (ground (arith, s, user)) (ground (arith, s, same)) in
      inl (ground (arith, c, s, same))
  cleared-Undone w1 w2 fresh a (inr n) =
      inr (ground (arith, n, clear_ack_session_lem packet_type_unsuback packet_id w2))

  unsubscribe_topics-Undone :
      IsFresh packet_type_unsuback packet_id w
      → (unsubscribe_topics env packet_id infos packet w).0 ≢ Error.success
      → let v = (unsubscribe_topics env packet_id infos packet w).1 in SameSession w v ⊎ NoSession v
  unfolding unsubscribe_topics
  unsubscribe_topics-Undone fresh bad =
      let (awaited_all, w1) = await_known_topics env packet_id infos w in
      let (e, w2) = send_packet env packet w1 in
      let a : Awaited packet_type_unsuback packet_id (known infos w) w w1 awaited_all =
        rw (← await_known_topics_lem env packet_id infos w) at
          (await_topics-Awaited env packet_type_unsuback packet_id (known infos w) w) in
      elim (Bool-cases awaited_all) [
        | inr n ↦ simp n (cleared-Undone w1 w1 fresh a (inl (ground arith)))
        | inl y ↦
            let failed : is_ok e ≡ false = ground (arith, y, bad) in
            simp (y, failed)
              (cleared-Undone w1 w2 fresh a (send_packet-Sends env packet w1).session)
      ]

-- Whatever the topics are, and whatever the network, the allocator and the serializer answer:
-- unsubscribing changes the number of live heap blocks exactly as the number of blocks that the
-- session owns.
pub un_subscribe_many-Balanced :
    (env : Env) (topics : List (Option (List ℕ))) (w : World)
    → Balanced 0 w (un_subscribe_many env topics w).1
unfolding un_subscribe_many unsubscribe_packet malloc free get_next_packet_id
un_subscribe_many-Balanced env topics w =
    let infos = map unsubscribe_info topics in
    let (id, w3) = get_next_packet_id (malloc env (malloc env w).1).1 in
    ground (
      arith,
      unsubscribe_topics-Balanced env id infos (env.serialize_unsubscribe infos id).buffer w3,
    )

-- If no handler of the session stands for the next packet identifier, an unsubscription that does
-- not answer success leaves the subscriptions, the awaited acknowledgements and their count as they
-- were, or, after a lost connection, a clean session that is empty.
pub un_subscribe_many-rollback :
    (env : Env) (topics : List (Option (List ℕ))) (w : World)
    → IsFresh packet_type_unsuback (next_id w.client.packet_id) w
    → (un_subscribe_many env topics w).0 ≢ Error.success
    → let v = (un_subscribe_many env topics w).1 in SameSession w v ⊎ NoSession v
unfolding un_subscribe_many unsubscribe_packet malloc free get_next_packet_id
un_subscribe_many-rollback env topics w fresh bad =
    let infos = map unsubscribe_info topics in
    let (id, w3) = get_next_packet_id (malloc env (malloc env w).1).1 in
    let same : IsFresh packet_type_unsuback id w3 = record {
      acks = fresh.acks;
      user_acks = fresh.user_acks;
      msgs = fresh.msgs;
    } in
    ground (
      arith,
      unsubscribe_topics-Undone env id infos (env.serialize_unsubscribe infos id).buffer w3 same,
    )
