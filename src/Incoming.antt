-- ===== src/Incoming.antt =====
-- mqttclient/RyanMqttThreadProcessPacket.c, lines 469 to 669: reading a packet and dispatching it.
pub mod Balance
pub mod Steady
use ryan_mqtt.Prelude.{
  Bool, List, Option, [], bit_and, drop, false, if◌then◌else◌, length, ltb, none, not, some, suc,
  take, true, zero, ℕ, ◌%◌, ◌++◌, ◌-◌, ◌==◌, ◌||◌,
}
use ryan_mqtt.Platform.{Env, PacketInfo, mqtt_need_more_bytes, mqtt_success}
use ryan_mqtt.Public.{
  Error, deserialize_packet, not_enough_mem, packet_type_connack, packet_type_pingresp,
  packet_type_puback, packet_type_pubcomp, packet_type_publish, packet_type_pubrec,
  packet_type_pubrel, packet_type_suback, packet_type_unsuback, success,
}
use ryan_mqtt.World.{M, World, free, malloc}
use ryan_mqtt.Packet.{
  is_ok, puback_and_pubcomp_packet_handler, publish_packet_handler, pubrec_packet_handler,
  pubrel_packet_handler,
}
use ryan_mqtt.Network.{recv_packet}
use ryan_mqtt.Event.{refresh_keepalive_time}
use ryan_mqtt.Suback.{suback_handler, sync_user_ack_handle, un_suback_handler}

-- How reading the fixed header ended. `overrun` is no outcome in C: the loop wrote behind the five
-- bytes of `pBuffer`.
pub data Header : Type 0 where
  header : List ℕ → PacketInfo → Header
  header_error : Error → Header
  overrun : Header

-- The `do` loop of `RyanMqttGetPacketInfo` up to the payload. It reads 2 bytes and then 3 in each
-- further round, so `pBuffer` has room for two rounds.
unfoldable pub read_header : Env → ℕ → List ℕ → ℕ → M Header
read_header env zero buffer need w = (overrun, w)
read_header env (suc rounds) buffer need w =
    let ((e, xs), w1) = recv_packet env need w in
    let all = buffer ++ xs in
    let p = env.process_type_and_length all in
    let more = read_header env rounds all 3 w1 in
    if not (is_ok e) then (header_error e, w1) else elim p.status [
      | mqtt_success ↦ (header all p.info, w1)
      | mqtt_need_more_bytes ↦ more
      | _ ↦ (header_error Error.deserialize_packet, w1)
    ]

-- A packet, and whether `pRemainingData` points to a block.
pub record Incoming : Type 0 where
  pub error : Error
  pub info : PacketInfo
  pub allocated : Bool

abbrev no_packet : PacketInfo
no_packet = record { type = 0; remaining_data = []; remaining_length = 0; header_length = 0 }

-- The rest of the loop: the payload behind a header.
unfoldable pub read_payload : Env → List ℕ → PacketInfo → M Incoming
read_payload env buffer info w =
    let (answer, w1) = malloc env w in
    let already = (length buffer - info.header_length) % 256 in
    let start = take already (drop info.header_length buffer) in
    let ((e, xs), w2) = recv_packet env (info.remaining_length - already) w1 in
    if info.remaining_length == 0
    then (record { error = Error.success; info = info; allocated = false }, w)
    else if not answer
    then (record { error = Error.not_enough_mem; info = info; allocated = false }, w1)
    else if not (ltb already info.remaining_length)
    then (
      record {
        error = Error.success;
        info = record info { remaining_data = start };
        allocated = true;
      },
      w1,
    )
    else if not (is_ok e)
    then (record { error = e; info = info; allocated = false }, free w2)
    else (
      record {
        error = Error.success;
        info = record info { remaining_data = start ++ xs };
        allocated = true;
      },
      w2,
    )

unfoldable pub after_header : Env → Header → World → Option Incoming × World
unfolding read_payload
after_header env (header buffer info) w = let (p, v) = read_payload env buffer info w in (some p, v)
after_header env (header_error e) w =
    (some (record { error = e; info = no_packet; allocated = false }), w)
after_header env overrun w = (none, w)

-- `RyanMqttGetPacketInfo`; `none` if it wrote behind its buffer.
unfoldable pub get_packet_info : Env → M (Option Incoming)
get_packet_info env w =
    let (h, w1) = read_header env 2 [] 2 w in
    let (p, w2) = after_header env h w1 in (p, sync_user_ack_handle env w2)

-- The `switch` of `RyanMqttProcessPacketHandler`.
pub dispatch : Env → PacketInfo → M Error
dispatch env info w =
    let t = bit_and info.type 0xf0 in
    if t == packet_type_publish
    then publish_packet_handler env info w
    else if t == packet_type_pingresp
    then (Error.success, refresh_keepalive_time env w)
    else if t == packet_type_puback || t == packet_type_pubcomp
    then puback_and_pubcomp_packet_handler env info w
    else if t == packet_type_pubrec
    then pubrec_packet_handler env info w
    else if t == bit_and packet_type_pubrel 0xf0
    then pubrel_packet_handler env info w
    else if t == packet_type_suback
    then suback_handler env info w
    else if t == packet_type_unsuback
    then un_suback_handler env info w
    else if t == packet_type_connack
    then (Error.success, w)
    else (Error.deserialize_packet, w)

-- `RyanMqttProcessPacketHandler` on what was read.
process_incoming : Env → Incoming → M Error
unfolding dispatch
process_incoming env p w =
    let (e, w1) = if is_ok p.error then dispatch env p.info w else (p.error, w) in
    (e, if p.allocated then free w1 else w1)

-- `RyanMqttProcessPacketHandler`; `none` as above.
pub process_packet_handler : Env → M (Option Error)
unfolding process_incoming
process_packet_handler env w =
    let (read, w1) = get_packet_info env w in
    elim read [
      | none ↦ (none, w1)
      | some p ↦ let (e, w2) = process_incoming env p w1 in (some e, w2)
    ]
