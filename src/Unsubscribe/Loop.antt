-- ===== src/Unsubscribe/Loop.antt =====
-- The loop of an unsubscription is the one of a subscription, with the levels that are known.
use ryan_mqtt.Prelude.{List, [], ap, arith, map, refl, ℕ, ◌∷◌, ◌≡◌}
use ryan_mqtt.Public.{packet_type_unsuback}
use ryan_mqtt.Platform.{Env, SubscribeInfo}
use ryan_mqtt.World.{World}
use ryan_mqtt.Handler.{ack_list_add_to_user_ack_list}
use ryan_mqtt.Msg.{msg_handler_find}
use ryan_mqtt.Subscribe.{await_topic, await_topics}
use ryan_mqtt.Subscribe.Await.{await_topic_cases}
use ryan_mqtt.Unsubscribe.{await_known_topics, known_qos}

abbrev pub known : List SubscribeInfo → World → List SubscribeInfo
known infos w = map (λ s. known_qos s w) infos

known-msgs :
    (infos : List SubscribeInfo) (v w : World)
    → v.client.msg_handler_list ≡ w.client.msg_handler_list
    → known infos v ≡ known infos w
unfolding known_qos msg_handler_find
known-msgs infos v w e =
    ap (λ ms. known infos (record w { client = record w.client { msg_handler_list = ms } })) e

await_topic-msgs :
    (env : Env) (packet_type packet_id : ℕ) (s : SubscribeInfo) (w : World)
    → (await_topic env packet_type packet_id s w).1.client.msg_handler_list
      ≡ w.client.msg_handler_list
unfolding ack_list_add_to_user_ack_list
await_topic-msgs env packet_type packet_id s w =
    ground (arith, await_topic_cases env packet_type packet_id s w)

pub await_known_topics_lem :
    (env : Env) (packet_id : ℕ) (infos : List SubscribeInfo) (w : World)
    → await_known_topics env packet_id infos w
      ≡ await_topics env packet_type_unsuback packet_id (known infos w) w
unfolding await_known_topics await_topics
await_known_topics_lem env packet_id [] w = refl
await_known_topics_lem env packet_id (s ∷ rest) w =
    let w1 = (await_topic env packet_type_unsuback packet_id (known_qos s w) w).1 in
    let m = await_topic-msgs env packet_type_unsuback packet_id (known_qos s w) w in
    ground (arith, await_known_topics_lem env packet_id rest w1, known-msgs rest w1 w m)
