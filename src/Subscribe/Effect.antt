-- ===== src/Subscribe/Effect.antt =====
-- What a subscription that succeeds leaves behind, and that one that fails leaves nothing behind.
use ryan_mqtt.Prelude.{
  All, Bool, List, [], append-nil, arith, false, keep, map, refl, reject, reject-append, true, ℕ,
  ◌++◌, ◌==◌, ◌∙◌, ◌∷◌, ◌≡◌, ap,
}
use ryan_mqtt.Public.{Error, packet_type_suback}
use ryan_mqtt.Client.{AckHandler, MsgHandler}
use ryan_mqtt.Platform.{SubscribeInfo}
use ryan_mqtt.World.{World, free}
use ryan_mqtt.Ack.{awaits, clear_ack_session}
use ryan_mqtt.Ack.Clear.{clear_ack_session_lem}
use ryan_mqtt.Network.Effect.{NoSession, SameSession}
use ryan_mqtt.Packet.{is_ok}
use ryan_mqtt.Subscribe.{end_subscribe}
use ryan_mqtt.Subscribe.Await.{topic_handler}
use ryan_mqtt.Subscribe.Remove.{
  remove_topics_lem, removed, removed-append, removed-new, removed-nil, removed-old,
}

module _ {A : Type 0} (p : A → Bool) where
  keep-none : (xs : List A) → All (λ x. p x ≡ false) xs → keep p xs ≡ []
  keep-none [] a = refl
  keep-none (x ∷ xs) (a, others) = ground (arith, keep-none xs others)

  reject-none : (xs : List A) → All (λ x. p x ≡ false) xs → reject p xs ≡ xs
  reject-none [] a = refl
  reject-none (x ∷ xs) (a, others) = ground (arith, reject-none xs others)

  reject-All : (xs : List A) → All (λ x. p x ≡ true) xs → reject p xs ≡ []
  reject-All [] a = refl
  reject-All (x ∷ xs) (a, others) = ground (arith, reject-All xs others)

-- Nothing of the session stands for this packet type and identifier.
pub record IsFresh (packet_type packet_id : ℕ) (w : World) : Type 0 where
  pub acks : All (λ h. awaits packet_type packet_id h ≡ false) w.client.ack_handler_list
  pub user_acks : All (λ h. awaits packet_type packet_id h ≡ false) w.client.user_ack_handler_list
  pub msgs : All (λ m. (m.packet_id == packet_id) ≡ false) w.client.msg_handler_list

-- Clearing takes away exactly what was added for the key.
pub clear_ack_session-added :
    (packet_type packet_id : ℕ) (new : List AckHandler) (w v : World)
    → IsFresh packet_type packet_id w
    → All (λ h. awaits packet_type packet_id h ≡ true) new
    → v.client.user_ack_handler_list ≡ w.client.user_ack_handler_list ++ new
    → v.client.ack_handler_list ≡ w.client.ack_handler_list
    → let x = clear_ack_session packet_type packet_id v in
      x ≡ record v {
        frees = x.frees;
        client = record v.client { user_ack_handler_list = w.client.user_ack_handler_list };
      }
clear_ack_session-added packet_type packet_id new w v fresh all user acks =
    let p = awaits packet_type packet_id in
    ground (
      arith,
      clear_ack_session_lem packet_type packet_id v,
      keep-none p w.client.ack_handler_list fresh.acks,
      reject-none p w.client.ack_handler_list fresh.acks,
      reject-none p w.client.user_ack_handler_list fresh.user_acks,
      reject-All p new all,
      reject-append p w.client.user_ack_handler_list new,
      append-nil w.client.user_ack_handler_list,
    )

-- Taking the topics off takes away exactly what was added of them.
removed-added :
    (packet_id : ℕ) (infos done rest : List SubscribeInfo) (old new : List MsgHandler)
    → All (λ m. (m.packet_id == packet_id) ≡ false) old
    → infos ≡ done ++ rest
    → new ≡ old ++ map (topic_handler packet_id) done
    → removed packet_id infos new ≡ old
removed-added packet_id infos done rest old new fresh split place =
    rw (split, place)
      (removed-append packet_id (done ++ rest) old (map (topic_handler packet_id) done)
        ∙ ap (λ ms. ms ++ removed packet_id (done ++ rest) (map (topic_handler packet_id) done))
            (removed-old packet_id (done ++ rest) old fresh)
        ∙ ap (λ ms. old ++ ms) (removed-new packet_id done rest)
        ∙ append-nil old)

-- What the two loops added to a session.
pub record Grown (packet_id : ℕ) (infos done rest : List SubscribeInfo) (new : List AckHandler)
    (w v : World) : Type 0 where
  pub user_acks : v.client.user_ack_handler_list ≡ w.client.user_ack_handler_list ++ new
  pub awaiting : All (λ h. awaits packet_type_suback packet_id h ≡ true) new
  pub acks : v.client.ack_handler_list ≡ w.client.ack_handler_list
  pub count : v.client.ack_handler_count ≡ w.client.ack_handler_count
  pub split : infos ≡ done ++ rest
  pub msgs :
      v.client.msg_handler_list ≡ w.client.msg_handler_list ++ map (topic_handler packet_id) done

pub end_subscribe-Grown :
    (packet_id : ℕ) (infos done rest : List SubscribeInfo) (new : List AckHandler) (e : Error)
    (w v : World)
    → IsFresh packet_type_suback packet_id w
    → Grown packet_id infos done rest new w v
    → is_ok e ≡ false
    → SameSession w (end_subscribe packet_id infos e v).1
unfolding end_subscribe free
end_subscribe-Grown packet_id infos done rest new e w v fresh g bad =
    let c =
      clear_ack_session-added packet_type_suback packet_id new w v fresh g.awaiting g.user_acks
        g.acks in
    let r = remove_topics_lem packet_id infos (clear_ack_session packet_type_suback packet_id v) in
    let m =
      removed-added packet_id infos done rest w.client.msg_handler_list v.client.msg_handler_list
        fresh.msgs g.split g.msgs in
    record {
      msgs = ground (arith, bad, c, r, m);
      acks = ground (arith, bad, c, r, g.acks);
      user_acks = ground (arith, bad, c, r);
      count = ground (arith, bad, c, r, g.count);
    }

pub end_subscribe-NoSession :
    (packet_id : ℕ) (infos : List SubscribeInfo) (e : Error) (v : World)
    → NoSession v
    → NoSession (end_subscribe packet_id infos e v).1
unfolding end_subscribe free
end_subscribe-NoSession packet_id infos e v n = ground (
  arith,
  n,
  clear_ack_session_lem packet_type_suback packet_id v,
  remove_topics_lem packet_id infos (clear_ack_session packet_type_suback packet_id v),
  removed-nil packet_id infos,
)
