-- ===== src/Publish.antt =====
-- mqttclient/RyanMqttClient.c, lines 522 to 626: publishing a message.
pub mod Balance
pub mod Effect
pub mod Steady
use ryan_mqtt.Prelude.{
  Bool, List, Option, bit_and, false, if◌then◌else◌, leb, length, ltb, none, not, some, take, true,
  ℕ, ◌%◌, ◌&&◌, ◌==◌, ◌^◌, ◌||◌, [],
}
use ryan_mqtt.Public.{
  Error, max_payload_len, msg_invalid_packet_id, packet_type_puback, packet_type_pubrec, qos0, qos1,
  qos2,
}
use ryan_mqtt.Client.{AckHandler}
use ryan_mqtt.Platform.{Env, PublishInfo}
use ryan_mqtt.World.{M, World, free, malloc}
use ryan_mqtt.PacketId.{get_next_packet_id}
use ryan_mqtt.Session.{get_client_state}
use ryan_mqtt.Handler.{
  ack_handler_create, ack_list_add_to_user_ack_list, msg_handler_create, msg_handler_destroy,
}
use ryan_mqtt.Ack.{clear_ack_session}
use ryan_mqtt.Network.{send_packet}
use ryan_mqtt.Packet.{is_ok, is_success}
use ryan_mqtt.Keepalive.{is_connected}

-- What the caller hands over. `payload` holds all bytes that its pointer may be read at; of these
-- the first `payload_len` are meant.
pub record PublishRequest : Type 0 where
  pub topic : Option (List ℕ)
  pub payload : Option (List ℕ)
  pub payload_len : ℕ
  pub qos : ℕ
  pub retain : Bool
  pub user_data : ℕ

abbrev pub text_of : Option (List ℕ) → List ℕ
text_of none = []
text_of (some xs) = xs

abbrev pub is_null : Option (List ℕ) → Bool
is_null none = true
is_null (some xs) = false

-- The checks of the parameters, apart from the client's.
abbrev pub is_valid_request : PublishRequest → Bool
is_valid_request r =
    not (length (text_of r.topic) == 0) && leb r.payload_len max_payload_len && leb r.qos qos2

-- `publishInfo`
abbrev pub publish_info : PublishRequest → PublishInfo
publish_info r = record {
  qos = r.qos;
  retain = r.retain;
  dup = false;
  topic_name = text_of r.topic;
  payload = take r.payload_len (text_of r.payload);
}

-- The acknowledgement that a publish with QoS 1 or 2 waits for.
abbrev pub awaited_type : ℕ → ℕ
awaited_type qos = if qos == qos1 then packet_type_puback else packet_type_pubrec

-- The case of QoS 0.
unfoldable pub send_once : Env → List ℕ → M Error
send_once env buffer w = let (e, v) = send_packet env buffer w in (e, free v)

-- The last part of the other case: the handler is on the user's list, and the packet goes out.
unfoldable pub send_awaited : Env → ℕ → ℕ → AckHandler → M Error
send_awaited env packet_type packet_id h w =
    let (e, v) = send_packet env h.packet (ack_list_add_to_user_ack_list h w) in
    if is_ok e then (e, v) else (e, clear_ack_session packet_type packet_id v)

-- The case of QoS 1 and 2.
unfoldable pub send_until_acked : Env → PublishRequest → ℕ → List ℕ → M Error
send_until_acked env r packet_id buffer w =
    let packet_type = awaited_type r.qos in
    let (made, w1) =
      msg_handler_create env (text_of r.topic) msg_invalid_packet_id r.qos r.user_data w in
    elim made [
      | none ↦ (Error.not_enough_mem, free w1)
      | some m ↦
          let (awaited, w2) = ack_handler_create env packet_type packet_id buffer m true w1 in
          elim awaited [
            | none ↦ (Error.not_enough_mem, msg_handler_destroy m (free w2))
            | some h ↦ send_awaited env packet_type packet_id h w2
          ]
    ]

-- From the packet identifier on.
-- The call that computes the size of the packet is taken to succeed: the code only asserts so, and in a
-- release goes on with a size that was never set. A failed status is the serializer's.
unfoldable pub publish_packet : Env → PublishRequest → M Error
publish_packet env r w =
    let (id, w1) = if r.qos == qos0 then (0, w) else get_next_packet_id w in
    let s = env.serialize_publish (publish_info r) id in
    if not (is_success s.status)
    then (Error.serialize_packet, free w1)
    else if r.qos == qos0
    then send_once env s.buffer w1
    else send_until_acked env r id s.buffer w1

-- `RyanMqttPublishWithUserData`
unfoldable pub publish_with_user_data : Env → PublishRequest → M Error
unfolding get_client_state
publish_with_user_data env r w =
    let (allocated, w1) = malloc env w in
    if not (is_valid_request r)
    then (Error.param_invalid, w)
    else if not (is_connected (get_client_state w))
    then (Error.not_connect, w)
    else if ltb 0 r.payload_len && is_null r.payload
    then (Error.param_invalid, w)
    else if not allocated
    then (Error.not_enough_mem, w1)
    else publish_packet env r w1

-- `RyanMqttPublish`: the length of the topic is handed over as a `uint16_t`.
unfoldable pub publish : Env → Option (List ℕ) → Option (List ℕ) → ℕ → ℕ → Bool → M Error
publish env none payload payload_len qos retain w = (Error.param_invalid, w)
publish env (some topic) payload payload_len qos retain w =
    publish_with_user_data env
      (record {
        topic = some (take (length topic % 2 ^ 16) topic);
        payload = payload;
        payload_len = payload_len;
        qos = qos;
        retain = retain;
        user_data = 0;
      })
      w
