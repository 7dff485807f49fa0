-- ===== src/Subscribe.antt =====
-- mqttclient/RyanMqttClient.c, lines 223 to 377: subscribing.
pub mod Await
pub mod Remove
pub mod Balance
pub mod Effect
pub mod Steady
pub mod Success
pub mod Rollback
use ryan_mqtt.Prelude.{
  Bool, List, Option, [], false, if◌then◌else◌, leb, length, map, none, not, some, take, true, ℕ,
  ◌%◌, ◌&&◌, ◌==◌, ◌^◌, ◌∷◌,
}
use ryan_mqtt.Public.{Error, packet_type_suback, qos2}
use ryan_mqtt.Platform.{Env, SubscribeInfo}
use ryan_mqtt.World.{M, World, free, malloc}
use ryan_mqtt.PacketId.{get_next_packet_id}
use ryan_mqtt.Session.{get_client_state}
use ryan_mqtt.Handler.{
  ack_handler_create, ack_list_add_to_user_ack_list, msg_handler_add_to_msg_list,
  msg_handler_create, msg_handler_destroy,
}
use ryan_mqtt.Msg.{msg_handler_find_and_destroy_by_packet_id}
use ryan_mqtt.Ack.{clear_ack_session}
use ryan_mqtt.Network.{send_packet}
use ryan_mqtt.Packet.{is_ok, is_success}
use ryan_mqtt.Keepalive.{is_connected}
use ryan_mqtt.Publish.{text_of}

-- A topic with its first `topicLen` bytes; `none` is a null pointer.
pub record SubscribeData : Type 0 where
  pub topic : Option (List ℕ)
  pub qos : ℕ

abbrev pub all_pass : {A : Type 0} → (A → Bool) → List A → Bool
all_pass p [] = true
all_pass p (x ∷ xs) = p x && all_pass p xs

abbrev pub is_valid_subscription : SubscribeData → Bool
is_valid_subscription d = not (length (text_of d.topic) == 0) && leb d.qos qos2

-- An element of `subscriptionList`.
abbrev pub subscribe_info : SubscribeData → SubscribeInfo
subscribe_info d = record { qos = d.qos; topic_filter = text_of d.topic }

-- One handler more on the user's list; `false` if there is no memory for it.
unfoldable pub await_topic : Env → ℕ → ℕ → SubscribeInfo → M Bool
await_topic env packet_type packet_id s w =
    let (made, w1) = msg_handler_create env s.topic_filter packet_id s.qos 0 w in
    elim made [
      | none ↦ (false, w1)
      | some m ↦
          let (awaited, w2) = ack_handler_create env packet_type packet_id [] m false w1 in
          elim awaited [
            | none ↦ (false, msg_handler_destroy m w2)
            | some h ↦ (true, ack_list_add_to_user_ack_list h w2)
          ]
    ]

-- The first loop, up to its first failure.
unfoldable pub await_topics : Env → ℕ → ℕ → List SubscribeInfo → M Bool
await_topics env packet_type packet_id [] w = (true, w)
await_topics env packet_type packet_id (s ∷ rest) w =
    let (made, w1) = await_topic env packet_type packet_id s w in
    let more = await_topics env packet_type packet_id rest w1 in if made then more else (false, w1)

-- The second loop, which puts the topics on the list of subscriptions.
unfoldable pub add_topics : Env → ℕ → List SubscribeInfo → M Bool
add_topics env packet_id [] w = (true, w)
add_topics env packet_id (s ∷ rest) w =
    let (made, w1) = msg_handler_create env s.topic_filter packet_id s.qos 0 w in
    elim made [
      | none ↦ (false, w1)
      | some m ↦ add_topics env packet_id rest (msg_handler_add_to_msg_list m w1)
    ]

-- The last loop, which takes them off again.
unfoldable pub remove_topics : ℕ → List SubscribeInfo → World → World
remove_topics packet_id [] w = w
remove_topics packet_id (s ∷ rest) w =
    remove_topics packet_id rest
      (msg_handler_find_and_destroy_by_packet_id s.topic_filter packet_id false w)

-- The part at `__exit`.
unfoldable pub end_subscribe : ℕ → List SubscribeInfo → Error → M Error
end_subscribe packet_id infos e w =
    let cleared =
      remove_topics packet_id infos (clear_ack_session packet_type_suback packet_id w) in
    (e, free (free (if is_ok e then w else cleared)))

-- From the loops on.
unfoldable pub subscribe_topics : Env → ℕ → List SubscribeInfo → List ℕ → M Error
subscribe_topics env packet_id infos packet w =
    let (awaited, w1) = await_topics env packet_type_suback packet_id infos w in
    let (added, w2) = add_topics env packet_id infos w1 in
    let (e, w3) = send_packet env packet w2 in
    if not awaited
    then (Error.not_enough_mem, free (free (clear_ack_session packet_type_suback packet_id w1)))
    else if not added
    then end_subscribe packet_id infos Error.not_enough_mem w2
    else end_subscribe packet_id infos e w3

-- From the packet identifier on.
unfoldable pub subscribe_packet : Env → List SubscribeInfo → M Error
subscribe_packet env infos w =
    let (id, w1) = get_next_packet_id w in
    let s = env.serialize_subscribe infos id in
    if not (is_success s.status)
    then (Error.serialize_packet, free (free w1))
    else subscribe_topics env id infos s.buffer w1

-- `RyanMqttSubscribeMany`
unfoldable pub subscribe_many : Env → List SubscribeData → M Error
subscribe_many env ds w =
    let (listed, w1) = malloc env w in
    let (allocated, w2) = malloc env w1 in
    if length ds == 0
    then (Error.param_invalid, w)
    else if not (is_connected (get_client_state w))
    then (Error.not_connect, w)
    else if not (all_pass is_valid_subscription ds)
    then (Error.param_invalid, w)
    else if not listed
    then (Error.not_enough_mem, w1)
    else if not allocated
    then (Error.not_enough_mem, free w2)
    else subscribe_packet env (map subscribe_info ds) w2

-- `RyanMqttSubscribe`: the length of the topic is handed over as a `uint16_t`.
pub subscribe : Env → Option (List ℕ) → ℕ → M Error
subscribe env none qos w = (Error.param_invalid, w)
subscribe env (some topic) qos w =
    let d : SubscribeData = record {
      topic = some (take (length topic % 2 ^ 16) topic);
      qos = qos;
    } in
    subscribe_many env (d ∷ []) w
