-- ===== src/Publish/Effect.antt =====
-- What a publish sends, and what it waits for.
use ryan_mqtt.Prelude.{
  Bool-cases, List, [], arith, if◌then◌else◌, inl, inr, length, take, true, ℕ, ◌%◌, ◌++◌, ◌<◌, ◌==◌,
  ◌^◌, ◌∷◌, ◌≡◌, ◌≢◌, ◌≤◌, ◌⊎◌, ◌+◌, zero, suc, refl,
}
use ryan_mqtt.Public.{Error, connect_state, msg_invalid_packet_id, qos0}
use ryan_mqtt.Client.{AckHandler, MsgHandler}
use ryan_mqtt.Platform.{Env}
use ryan_mqtt.World.{World, free, malloc}
use ryan_mqtt.PacketId.{get_next_packet_id, next_id}
use ryan_mqtt.Handler.{ack_list_add_to_user_ack_list, msg_handler_create}
use ryan_mqtt.Handler.Create.{ack_handler_create_cases, msg_handler_create_cases, new_ack_handler}
use ryan_mqtt.Ack.{awaits}
use ryan_mqtt.Session.{get_client_state}
use ryan_mqtt.Network.Reads.{send_packet-success}
use ryan_mqtt.Network.Wire.{AnswersCount, send_packet-wire}
use ryan_mqtt.Publish.{
  PublishRequest, awaited_type, publish_info, publish_packet, publish_with_user_data, send_awaited,
  send_once, send_until_acked, text_of, is_valid_request,
}

-- The identifier and the serialized packet of a publish.
abbrev pub id_of : PublishRequest → World → ℕ
id_of r w = if r.qos == qos0 then 0 else next_id w.client.packet_id

abbrev pub packet_of : Env → PublishRequest → World → List ℕ
packet_of env r w = (env.serialize_publish (publish_info r) (id_of r w)).buffer

-- What is sent of it: the length is handed on as a `uint16_t`, except with QoS 0.
abbrev pub sent_of : Env → PublishRequest → World → List ℕ
sent_of env r w =
    if r.qos == qos0
    then packet_of env r w
    else take (length (packet_of env r w) % 2 ^ 16) (packet_of env r w)

-- The user's list with what the client waits for from now on.
pub data Waits (r : PublishRequest) (id : ℕ) (packet : List ℕ) (old : List AckHandler)
    : List AckHandler → Type 0 where
  waits :
      (h : AckHandler) {new : List AckHandler}
      → new ≡ old ++ h ∷ []
      → awaits (awaited_type r.qos) id h ≡ true
      → h.packet ≡ packet
      → h.msg_handler.topic ≡ text_of r.topic
      → Waits r id packet old new

length-take : (n : ℕ) (xs : List ℕ) → n ≤ length xs → length (take n xs) ≡ n
length-take zero xs h = refl
length-take (suc n) [] h = absurd (omega arith)
length-take (suc n) (x ∷ xs) h = omega (arith, length-take n xs)

length-take-le : (n : ℕ) (xs : List ℕ) → length (take n xs) ≤ length xs
length-take-le zero xs = omega arith
length-take-le (suc n) [] = omega arith
length-take-le (suc n) (x ∷ xs) = omega (arith, length-take-le n xs)

-- The handler that a publish keeps.
abbrev pub handler_of : PublishRequest → MsgHandler
handler_of r = record {
  user_data = r.user_data;
  topic = text_of r.topic;
  qos = r.qos;
  packet_id = msg_invalid_packet_id;
}

module _ (env : Env) (count : AnswersCount env) where
  send_awaited-success :
      (packet_type packet_id : ℕ) (h : AckHandler) (w : World)
      → length h.packet < 2 ^ 32
      → (send_awaited env packet_type packet_id h w).0 ≡ Error.success
      → let v = (send_awaited env packet_type packet_id h w).1 in
        (v.wire ≡ w.wire ++ h.packet)
        × (v.client.user_ack_handler_list ≡ w.client.user_ack_handler_list ++ h ∷ [])
  unfolding send_awaited ack_list_add_to_user_ack_list
  send_awaited-success packet_type packet_id h w small e =
      let w1 = ack_list_add_to_user_ack_list h w in
      ground
        (arith, send_packet-wire env count h.packet small w1, send_packet-success env h.packet w1)

  -- A success has come as far as the sending, with both handlers made.
  send_until_acked-awaits :
      (r : PublishRequest) (id : ℕ) (buffer : List ℕ) (w : World)
      → let h =
          new_ack_handler env
            (awaited_type r.qos)
            id
            buffer
            (handler_of r)
            true
            (record w { tick = w.tick + 1; mallocs = w.mallocs + 1 }) in
        (send_until_acked env r id buffer w).0 ≡ Error.success
        → send_until_acked env r id buffer w
          ≡ send_awaited env
              (awaited_type r.qos)
              id
              h
              (record w { tick = w.tick + 3; mallocs = w.mallocs + 2 })
  unfolding send_until_acked
  send_until_acked-awaits r id buffer w e =
      let w1 =
        (msg_handler_create env (text_of r.topic) msg_invalid_packet_id r.qos r.user_data w).1 in
      ground (
        arith,
        msg_handler_create_cases env (text_of r.topic) msg_invalid_packet_id r.qos r.user_data w,
        ack_handler_create_cases env (awaited_type r.qos) id buffer (handler_of r) true w1,
      )

  send_until_acked-success :
      (r : PublishRequest) (id : ℕ) (buffer : List ℕ) (w : World)
      → (send_until_acked env r id buffer w).0 ≡ Error.success
      → let v = (send_until_acked env r id buffer w).1 in
        let packet = take (length buffer % 2 ^ 16) buffer in
        (v.wire ≡ w.wire ++ packet)
        × Waits r id packet w.client.user_ack_handler_list v.client.user_ack_handler_list
  unfolding awaits
  send_until_acked-success r id buffer w e =
      let w1 : World = record w { tick = w.tick + 1; mallocs = w.mallocs + 1 } in
      let w2 : World = record w { tick = w.tick + 3; mallocs = w.mallocs + 2 } in
      let h = new_ack_handler env (awaited_type r.qos) id buffer (handler_of r) true w1 in
      let small : length h.packet < 2 ^ 32 =
        omega (arith, length-take (length buffer % 2 ^ 16) buffer (omega arith)) in
      let same = send_until_acked-awaits r id buffer w e in
      let done = send_awaited-success (awaited_type r.qos) id h w2 small (ground arith) in
      rw same (done.0, waits h done.1 (ground arith) refl refl)

  send_once-success :
      (buffer : List ℕ) (w : World)
      → length buffer < 2 ^ 32
      → (send_once env buffer w).0 ≡ Error.success
      → let v = (send_once env buffer w).1 in
        (v.wire ≡ w.wire ++ buffer)
        × (v.client.user_ack_handler_list ≡ w.client.user_ack_handler_list)
  unfolding send_once free
  send_once-success buffer w small e =
      ground (arith, send_packet-wire env count buffer small w, send_packet-success env buffer w)

  publish_packet-success :
      (r : PublishRequest) (w : World)
      → length (packet_of env r w) < 2 ^ 32
      → (publish_packet env r w).0 ≡ Error.success
      → let v = (publish_packet env r w).1 in
        ((r.qos ≡ qos0)
          × (v.wire ≡ w.wire ++ packet_of env r w)
          × (v.client.user_ack_handler_list ≡ w.client.user_ack_handler_list))
        ⊎ ((r.qos ≢ qos0)
            × (v.wire ≡ w.wire ++ sent_of env r w)
            × Waits r
                (id_of r w)
                (sent_of env r w)
                w.client.user_ack_handler_list
                v.client.user_ack_handler_list)
  unfolding publish_packet get_next_packet_id
  publish_packet-success r w small e = elim (Bool-cases (r.qos == qos0)) [
    | inl once ↦ inl (ground (arith, send_once-success (packet_of env r w) w))
    | inr more ↦
        let w1 = (get_next_packet_id w).1 in
        inr (ground (arith, send_until_acked-success r (id_of r w) (packet_of env r w) w1))
  ]

  -- On a platform that counts the bytes it took or answers -1, and with a packet shorter than 2^32:
  -- if a publish answers success, the parameters passed the checks, the client was connected, the
  -- packet (with QoS 1 and 2 as much of it as its length modulo 2^16 says) went to the network
  -- behind all that went there before, and, exactly with QoS 1 and 2, the user's list has at its end
  -- one more handler, for the acknowledgement of the new identifier, with the bytes that were sent.
  pub publish_with_user_data-success :
      (r : PublishRequest) (w : World)
      → length (packet_of env r w) < 2 ^ 32
      → (publish_with_user_data env r w).0 ≡ Error.success
      → let v = (publish_with_user_data env r w).1 in
        (is_valid_request r ≡ true)
        × (get_client_state w ≡ connect_state)
        × (((r.qos ≡ qos0)
              × (v.wire ≡ w.wire ++ packet_of env r w)
              × (v.client.user_ack_handler_list ≡ w.client.user_ack_handler_list))
            ⊎ ((r.qos ≢ qos0)
                × (v.wire ≡ w.wire ++ sent_of env r w)
                × Waits r
                    (id_of r w)
                    (sent_of env r w)
                    w.client.user_ack_handler_list
                    v.client.user_ack_handler_list))
  unfolding publish_with_user_data malloc get_client_state
  publish_with_user_data-success r w small e =
      ground (arith, publish_packet-success r (malloc env w).1)
