-- ===== src/Unsubscribe.antt =====
-- mqttclient/RyanMqttClient.c, lines 379 to 512: unsubscribing.
pub mod Loop
pub mod Effect
pub mod Steady
use ryan_mqtt.Prelude.{
  Bool, List, Option, [], false, if◌then◌else◌, length, map, none, not, some, take, true, ℕ, ◌%◌,
  ◌==◌, ◌^◌, ◌∷◌,
}
use ryan_mqtt.Public.{Error, packet_type_unsuback, sub_fail}
use ryan_mqtt.Platform.{Env, SubscribeInfo}
use ryan_mqtt.World.{M, World, free, malloc}
use ryan_mqtt.PacketId.{get_next_packet_id}
use ryan_mqtt.Session.{get_client_state}
use ryan_mqtt.Msg.{msg_handler_find}
use ryan_mqtt.Ack.{clear_ack_session}
use ryan_mqtt.Network.{send_packet}
use ryan_mqtt.Packet.{is_ok, is_success}
use ryan_mqtt.Keepalive.{is_connected}
use ryan_mqtt.Publish.{text_of}
use ryan_mqtt.Subscribe.{all_pass, await_topic}

-- `unSubscribeManyData` is a list of topics, each with its first `topicLen` bytes.
abbrev pub is_valid_topic : Option (List ℕ) → Bool
is_valid_topic topic = not (length (text_of topic) == 0)

-- An element of `unSubscriptionList`; its level is a placeholder.
abbrev pub unsubscribe_info : Option (List ℕ) → SubscribeInfo
unsubscribe_info topic = record { qos = sub_fail; topic_filter = text_of topic }

-- The level of the first subscription with the topic takes the place.
unfoldable pub known_qos : SubscribeInfo → World → SubscribeInfo
known_qos s w = elim (msg_handler_find s.topic_filter false w) [
  | none ↦ s
  | some (before, m, after) ↦ record s { qos = m.qos }
]

-- The loop, up to its first failure.
unfoldable pub await_known_topics : Env → ℕ → List SubscribeInfo → M Bool
await_known_topics env packet_id [] w = (true, w)
await_known_topics env packet_id (s ∷ rest) w =
    let (made, w1) = await_topic env packet_type_unsuback packet_id (known_qos s w) w in
    let more = await_known_topics env packet_id rest w1 in if made then more else (false, w1)

-- From the loop on.
unfoldable pub unsubscribe_topics : Env → ℕ → List SubscribeInfo → List ℕ → M Error
unsubscribe_topics env packet_id infos packet w =
    let (awaited, w1) = await_known_topics env packet_id infos w in
    let (e, w2) = send_packet env packet w1 in
    if not awaited
    then (Error.not_enough_mem, free (free (clear_ack_session packet_type_unsuback packet_id w1)))
    else if not (is_ok e)
    then (e, free (free (clear_ack_session packet_type_unsuback packet_id w2)))
    else (e, free (free w2))

-- From the packet identifier on.
unfoldable pub unsubscribe_packet : Env → List SubscribeInfo → M Error
unsubscribe_packet env infos w =
    let (id, w1) = get_next_packet_id w in
    let s = env.serialize_unsubscribe infos id in
    if not (is_success s.status)
    then (Error.serialize_packet, free (free w1))
    else unsubscribe_topics env id infos s.buffer w1

-- `RyanMqttUnSubscribeMany`
unfoldable pub un_subscribe_many : Env → List (Option (List ℕ)) → M Error
un_subscribe_many env topics w =
    let (listed, w1) = malloc env w in
    let (allocated, w2) = malloc env w1 in
    if length topics == 0
    then (Error.param_invalid, w)
    else if not (is_connected (get_client_state w))
    then (Error.not_connect, w)
    else if not (all_pass is_valid_topic topics)
    then (Error.param_invalid, w)
    else if not listed
    then (Error.not_enough_mem, w1)
    else if not allocated
    then (Error.not_enough_mem, free w2)
    else unsubscribe_packet env (map unsubscribe_info topics) w2

-- `RyanMqttUnSubscribe`: the length of the topic is handed over as a `uint16_t`.
pub un_subscribe : Env → Option (List ℕ) → M Error
un_subscribe env none w = (Error.param_invalid, w)
un_subscribe env (some topic) w =
    un_subscribe_many env (some (take (length topic % 2 ^ 16) topic) ∷ []) w
