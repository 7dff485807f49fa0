-- ===== src/Subscribe/Rollback.antt =====
-- A subscription is all or nothing.
use ryan_mqtt.Prelude.{
  Bool, Bool-cases, List, [], arith, false, inl, inr, map, refl, true, ℕ, ◌≡◌, ◌≢◌, ◌⊎◌,
}
use ryan_mqtt.Public.{Error, packet_type_suback}
use ryan_mqtt.Client.{AckHandler}
use ryan_mqtt.Platform.{Env, SubscribeInfo}
use ryan_mqtt.World.{World, free, malloc}
use ryan_mqtt.PacketId.{get_next_packet_id, next_id}
use ryan_mqtt.Ack.{clear_ack_session}
use ryan_mqtt.Network.{send_packet}
use ryan_mqtt.Network.Effect.{NoSession, SameSession, send_packet-Sends}
use ryan_mqtt.Packet.{is_ok}
use ryan_mqtt.Subscribe.{
  SubscribeData, add_topics, await_topics, end_subscribe, subscribe_info, subscribe_many,
  subscribe_packet, subscribe_topics,
}
use ryan_mqtt.Subscribe.Await.{Awaited, await_topics-Awaited, awaited, topic_handler}
use ryan_mqtt.Subscribe.Remove.{Added, add_topics-Added, added}
use ryan_mqtt.Subscribe.Effect.{
  Grown, IsFresh, clear_ack_session-added, end_subscribe-Grown, end_subscribe-NoSession,
}

-- The session is as it was, or gone with the connection.
abbrev pub Undone : World → World → Type 0
Undone w v = SameSession w v ⊎ NoSession v

module _ (env : Env) (packet_id : ℕ) (infos : List SubscribeInfo) (packet : List ℕ) (w : World)
    (fresh : IsFresh packet_type_suback packet_id w) where
  unawaited-Undone :
      (w1 : World)
      → Awaited packet_type_suback packet_id infos w w1 false
      → Undone w (free (free (clear_ack_session packet_type_suback packet_id w1)))
  unfolding free
  unawaited-Undone w1 (awaited new user all made same) =
      let c =
        clear_ack_session-added packet_type_suback packet_id new w w1 fresh all user
          (ground (arith, same)) in
      inl (ground (arith, c, same))

  grown :
      (w1 w2 : World) (r : Bool)
      → Awaited packet_type_suback packet_id infos w w1 true
      → Added packet_id infos w1 w2 r
      → (new : List AckHandler) × (done : List SubscribeInfo) × (rest : List SubscribeInfo) × Grown
          packet_id infos done rest new w w2
        × (map (λ h. h.msg_handler) new ≡ map (topic_handler packet_id) infos)
        × (r ≡ true → rest ≡ [])
        × (w2.wire ≡ w.wire)
  grown w1 w2 r (awaited new user all made same) (added done rest split full place same2) = (
    new,
    done,
    rest,
    record {
      user_acks = ground (arith, user, same2);
      awaiting = all;
      acks = ground (arith, same, same2);
      count = ground (arith, same, same2);
      split = split;
      msgs = ground (arith, same, place);
    },
    made refl,
    full,
    ground (arith, same, same2),
  )

  -- Behind the two loops.
  ended-Undone :
      (w1 w2 : World) (r : Bool) (e : Error) (w3 : World)
      → Awaited packet_type_suback packet_id infos w w1 true
      → Added packet_id infos w1 w2 r
      → SameSession w2 w3 ⊎ NoSession w3
      → is_ok e ≡ false
      → Undone w (end_subscribe packet_id infos e w3).1
  ended-Undone w1 w2 r e w3 a b (inr gone) bad =
      inr (end_subscribe-NoSession packet_id infos e w3 gone)
  ended-Undone w1 w2 r e w3 a b (inl same) bad =
      let (new, done, rest, g, m, f, wire) = grown w1 w2 r a b in
      let g3 : Grown packet_id infos done rest new w w3 = record {
        user_acks = ground (arith, same, g.user_acks);
        awaiting = g.awaiting;
        acks = ground (arith, same, g.acks);
        count = ground (arith, same, g.count);
        split = g.split;
        msgs = ground (arith, same, g.msgs);
      } in
      inl (end_subscribe-Grown packet_id infos done rest new e w w3 fresh g3 bad)

  subscribe_topics-Undone :
      (subscribe_topics env packet_id infos packet w).0 ≢ Error.success
      → Undone w (subscribe_topics env packet_id infos packet w).1
  unfolding subscribe_topics end_subscribe
  subscribe_topics-Undone bad =
      let (awaited_all, w1) = await_topics env packet_type_suback packet_id infos w in
      let (added_all, w2) = add_topics env packet_id infos w1 in
      let (e, w3) = send_packet env packet w2 in
      let a = await_topics-Awaited env packet_type_suback packet_id infos w in
      let b = add_topics-Added env packet_id infos w1 in
      elim (Bool-cases awaited_all) [
        | inr n ↦ rw n (unawaited-Undone w1 (rw n at a))
        | inl y ↦ elim (Bool-cases added_all) [
          | inr n ↦
              simp (y, n)
                (ended-Undone w1 w2 false Error.not_enough_mem w2 (rw y at a) (rw n at b)
                  (inl (ground arith)) refl)
          | inl y' ↦
              let err : is_ok e ≡ false = ground (arith, y, y', bad) in
              simp (y, y')
                (ended-Undone w1 w2 true e w3 (rw y at a) (rw y' at b)
                  (send_packet-Sends env packet w2).session err)
        ]
      ]

-- If no handler of the session stands for the next packet identifier, a subscription that does not
-- answer success (wherever it fails: a parameter, the connection, the memory at any of its
-- allocations, the serializer or the network) leaves the subscriptions, the awaited
-- acknowledgements and their count as they were, or, after a lost connection, a clean session that
-- is empty.
pub subscribe_many-rollback :
    (env : Env) (ds : List SubscribeData) (w : World)
    → IsFresh packet_type_suback (next_id w.client.packet_id) w
    → (subscribe_many env ds w).0 ≢ Error.success
    → Undone w (subscribe_many env ds w).1
unfolding subscribe_many subscribe_packet malloc free get_next_packet_id
subscribe_many-rollback env ds w fresh bad =
    let infos = map subscribe_info ds in
    let (id, w3) = get_next_packet_id (malloc env (malloc env w).1).1 in
    let same : IsFresh packet_type_suback id w3 = record {
      acks = fresh.acks;
      user_acks = fresh.user_acks;
      msgs = fresh.msgs;
    } in
    ground (
      arith,
      subscribe_topics-Undone env id infos (env.serialize_subscribe infos id).buffer w3 same,
    )
