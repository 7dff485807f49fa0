-- ===== src/Connect.antt =====
-- mqttclient/RyanMqttThread.c, lines 246 to 403: connecting to the server.
pub mod Accepted
pub mod Balance
use ryan_mqtt.Prelude.{
  Bool, List, Option, bit_and, false, get_or, if◌then◌else◌, none, not, some, true, ℕ, ◌==◌, [],
  ◌+◌,
}
use ryan_mqtt.Public.{
  Error, connect_accepted, connect_client_invalid, connect_failed_error,
  connect_first_pack_not_connack, connect_invalid_packet_error, connect_net_work_fail,
  packet_type_connack,
}
use ryan_mqtt.Client.{Client, LwtOptions}
use ryan_mqtt.Platform.{
  ConnectInfo, Env, PacketInfo, PublishInfo, Status, mqtt_need_more_bytes, mqtt_other,
  mqtt_server_refused, mqtt_success,
}
use ryan_mqtt.World.{M, World, free, malloc}
use ryan_mqtt.Session.{get_client_state, purge_session}
use ryan_mqtt.Event.{network_close}
use ryan_mqtt.Network.{send_packet}
use ryan_mqtt.Packet.{is_ok, is_success}
use ryan_mqtt.Incoming.{Incoming, get_packet_info}
use ryan_mqtt.Keepalive.{is_connected}

abbrev bytes_or_none : Option (List ℕ) → List ℕ
bytes_or_none none = []
bytes_or_none (some xs) = xs

-- `connectInfo`
pub connect_info : Client → ConnectInfo
connect_info c = record {
  client_identifier = c.config.client_id;
  user_name = c.config.user_name;
  password = c.config.password;
  keep_alive_seconds = c.config.keepalive_timeout_s;
  clean_session = c.config.clean_session_flag;
}

-- `willInfo`, if there is a will.
will_of : LwtOptions → PublishInfo
will_of o = record {
  qos = o.qos;
  retain = o.retain;
  dup = false;
  topic_name = bytes_or_none o.topic;
  payload = bytes_or_none o.payload;
}

pub will_info : Option LwtOptions → Option PublishInfo
unfolding will_of
will_info none = none
will_info (some o) = if o.lwt_flag then some (will_of o) else none

-- `MQTTSuccess != status && MQTTServerRefused != status`
abbrev is_answer : Status → Bool
is_answer mqtt_success = true
is_answer mqtt_server_refused = true
is_answer mqtt_need_more_bytes = false
is_answer mqtt_other = false

-- The answer to a CONNECT: the result and the connect status. The return code is the second byte of
-- the packet; where it has none, the code is one that does not accept.
unfoldable pub read_connack : Env → PacketInfo → M (Error × ℕ)
read_connack env info w =
    let d = env.deserialize_ack info in
    let code = get_or info.remaining_data 1 connect_invalid_packet_error in
    if not (bit_and info.type 0xf0 == packet_type_connack)
    then ((Error.invalid_packet, connect_first_pack_not_connack), w)
    else if not (is_answer d.status)
    then ((Error.failed, connect_invalid_packet_error), w)
    else if not (code == connect_accepted)
    then ((Error.failed, code), w)
    else if not d.session_present
    then ((Error.success, code), purge_session w)
    else ((Error.success, code), w)

-- From the first packet to the end: its memory is freed, and on failure the network is closed.
unfoldable pub after_packet : Env → Incoming → M (Error × ℕ)
after_packet env p w =
    let ((e, code), w1) = read_connack env p.info w in
    let w2 = if p.allocated then free w1 else w1 in
    ((e, code), if is_ok e then w2 else network_close w2)

unfoldable pub await_connack : Env → M (Option (Error × ℕ))
await_connack env w =
    let (read, w1) = get_packet_info env w in
    elim read [
      | none ↦ (none, w1)
      | some p ↦
          let (r, w2) = after_packet env p w1 in
          if is_ok p.error then (some r, w2) else (some (p.error, connect_invalid_packet_error), w1)
    ]

-- `platformNetworkConnect`
unfoldable pub network_connect : Env → M Error
network_connect env w = (
  env.network_connect w.tick w.client.config.host w.client.config.port,
  record w { tick = w.tick + 1 },
)

-- The serialized CONNECT packet.
abbrev pub connect_packet : Env → Client → List ℕ
connect_packet env c = (env.serialize_connect (connect_info c) (will_info c.lwt_options)).buffer

-- The part between the allocation of the CONNECT packet and `__exit`.
unfoldable pub exchange : Env → M (Option (Error × ℕ))
exchange env w =
    let s = env.serialize_connect (connect_info w.client) (will_info w.client.lwt_options) in
    let (opened, w1) = network_connect env w in
    let (e, w2) = send_packet env s.buffer w1 in
    let awaited = await_connack env w2 in
    if not (is_success s.status)
    then (some (Error.serialize_packet, connect_failed_error), w)
    else if not (is_ok opened)
    then (some (opened, connect_net_work_fail), w1)
    else if not (is_ok e)
    then (some (e, connect_net_work_fail), w2)
    else awaited

-- `RyanMqttConnectBroker`: the result and `*connectState`; `none` as in Incoming.
unfoldable pub connect_broker : Env → M (Option (Error × ℕ))
unfolding get_client_state
connect_broker env w =
    let (allocated, w1) = malloc env w in
    let (r, w2) = exchange env w1 in
    if is_connected (get_client_state w)
    then (some (Error.no_rescource, connect_client_invalid), w)
    else if not allocated
    then (some (Error.not_enough_mem, connect_failed_error), w1)
    else (r, free w2)
