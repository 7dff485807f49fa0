-- ===== src/Connect/Accepted.antt =====
-- What a successful connection means.
use ryan_mqtt.Prelude.{
  List, refl, get_or, bit_and, true, [], ◌∷◌, ◌⊎◌, Option-cases, arith, inl, inr, length, some, ℕ,
  ◌++◌, ◌+◌, ◌<◌, ◌^◌, ◌≡◌, false,
}
use ryan_mqtt.Public.{Error, connect_accepted, connect_invalid_packet_error, packet_type_connack}
use ryan_mqtt.Client.{Client}
use ryan_mqtt.Platform.{
  Env, PacketInfo, Status, mqtt_need_more_bytes, mqtt_other, mqtt_server_refused, mqtt_success,
}
use ryan_mqtt.World.{World, free, malloc}
use ryan_mqtt.Session.Purge.{purge_session_lem}
use ryan_mqtt.Event.{network_close}
use ryan_mqtt.Network.{send_packet}
use ryan_mqtt.Network.Wire.{AnswersCount, send_packet-wire}
use ryan_mqtt.Incoming.{Incoming, get_packet_info}
use ryan_mqtt.Incoming.Steady.{get_packet_info-Reads}
use ryan_mqtt.Keepalive.{is_connected}
use ryan_mqtt.Connect.{
  after_packet, await_connack, connect_broker, is_answer, connect_packet, exchange, network_connect,
  read_connack,
}

-- A CONNACK whose second byte says that the connection is accepted; `c` is the client behind it, which
-- has no session if the server has none.
pub record Accepts (env : Env) (info : PacketInfo) (c : Client) : Type 0 where
  pub type : bit_and info.type 0xf0 ≡ packet_type_connack
  pub status :
      ((env.deserialize_ack info).status ≡ mqtt_success)
      ⊎ ((env.deserialize_ack info).status ≡ mqtt_server_refused)
  pub code : (flags : ℕ) × (rest : List ℕ) × (info.remaining_data ≡ flags ∷ 0 ∷ rest)
  pub session :
      ((env.deserialize_ack info).session_present ≡ true)
      ⊎ ((c.msg_handler_list ≡ []) × (c.ack_handler_list ≡ []) × (c.user_ack_handler_list ≡ []))

-- The packet that is read from `u` on arrived, and accepts.
abbrev pub Answered : Env → World → Client → Type 0
Answered env u c =
    (p : Incoming) × ((get_packet_info env u).0 ≡ some p)
    × (p.error ≡ Error.success)
    × Accepts env p.info c

second_byte :
    (xs : List ℕ)
    → get_or xs 1 connect_invalid_packet_error ≡ connect_accepted
    → (flags : ℕ) × (rest : List ℕ) × (xs ≡ flags ∷ 0 ∷ rest)
second_byte [] e = absurd (omega (arith, e))
second_byte (x ∷ []) e = absurd (omega (arith, e))
second_byte (x ∷ y ∷ rest) e = (x, rest, rw e refl)

is_answer-true : (s : Status) → is_answer s ≡ true → (s ≡ mqtt_success) ⊎ (s ≡ mqtt_server_refused)
is_answer-true mqtt_success e = inl refl
is_answer-true mqtt_server_refused e = inr refl
is_answer-true mqtt_need_more_bytes e = ground (arith, e)
is_answer-true mqtt_other e = ground (arith, e)

-- Where the network is open and the CONNECT packet was sent.
abbrev pub behind_connect : Env → World → World
behind_connect env w = (send_packet env (connect_packet env w.client) (network_connect env w).1).1

module _ (env : Env) (count : AnswersCount env) where
  read_connack-accepted :
      (info : PacketInfo) (w : World) (code : ℕ)
      → (read_connack env info w).0 ≡ (Error.success, code)
      → let v = (read_connack env info w).1 in
        Accepts env info v.client × (code ≡ connect_accepted) × (v.wire ≡ w.wire)
  unfolding read_connack
  read_connack-accepted info w code e =
      let s = (env.deserialize_ack info).status in
      ground (arith, purge_session_lem w, is_answer-true s, second_byte info.remaining_data)

  after_packet-accepted :
      (p : Incoming) (w : World) (code : ℕ)
      → (after_packet env p w).0 ≡ (Error.success, code)
      → let v = (after_packet env p w).1 in
        Accepts env p.info v.client × (code ≡ connect_accepted) × (v.wire ≡ w.wire)
  unfolding after_packet free network_close
  after_packet-accepted p w code e = ground (arith, read_connack-accepted p.info w code)

  await_connack-accepted :
      (w : World) (code : ℕ)
      → (await_connack env w).0 ≡ some (Error.success, code)
      → let v = (await_connack env w).1 in
        Answered env w v.client × (code ≡ connect_accepted) × (v.wire ≡ w.wire)
  unfolding await_connack
  await_connack-accepted w code e =
      let (p, w1) = get_packet_info env w in
      elim (Option-cases p) [
        | inl no_packet ↦ ground arith
        | inr (q, read) ↦
            let ok : q.error ≡ Error.success = ground arith in
            let (accepts, accepted, same) = after_packet-accepted q w1 code (ground arith) in
            (
              (q, read, ok, ground (arith, accepts)),
              accepted,
              ground (arith, get_packet_info-Reads env w, same),
            )
      ]

  exchange-accepted :
      (w : World) (code : ℕ)
      → length (connect_packet env w.client) < 2 ^ 32
      → (exchange env w).0 ≡ some (Error.success, code)
      → let v = (exchange env w).1 in
        Answered env (behind_connect env w) v.client
        × (code ≡ connect_accepted)
        × (v.wire ≡ w.wire ++ connect_packet env w.client)
  unfolding exchange network_connect
  exchange-accepted w code small e =
      let packet = connect_packet env w.client in
      let w1 = record w { tick = w.tick + 1 } in
      let w2 = (send_packet env packet w1).1 in
      ground (arith, send_packet-wire env count packet small w1, await_connack-accepted w2 code)

  -- When `RyanMqttConnectBroker` answers success, the client was not connected, the network took the
  -- whole CONNECT packet and nothing else, and the first packet that was read behind it is a CONNACK
  -- whose second byte says that the server accepts; if it says that the server has no session, the
  -- client's session is empty. This supposes a platform that counts the bytes it took or answers -1,
  -- and a packet shorter than 2^32.
  pub connect_broker-accepted :
      (w : World) (code : ℕ)
      → length (connect_packet env w.client) < 2 ^ 32
      → (connect_broker env w).0 ≡ some (Error.success, code)
      → let v = (connect_broker env w).1 in
        (is_connected w.client.client_state ≡ false)
        × (code ≡ connect_accepted)
        × Answered env (behind_connect env (malloc env w).1) v.client
        × (v.wire ≡ w.wire ++ connect_packet env w.client)
  unfolding connect_broker malloc free
  connect_broker-accepted w code small e =
      ground (arith, exchange-accepted (malloc env w).1 code small)
