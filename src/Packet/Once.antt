-- ===== src/Packet/Once.antt =====
-- Receiving with QoS 2: a message is handed to the user once, however often it is sent again.
use ryan_mqtt.Client.{AckHandler, MsgData}
use ryan_mqtt.Prelude.{
  All, List, [], ap, arith, false, find_at_cases, inl, inr, keep, refl, some, sym, ℕ, ◌∙◌, ◌∷◌, ◌≡◌,
  ◌≢◌,
}
use ryan_mqtt.Packet.Arrival.{Arrived, Awaits, Listens, receive_first-Arrived}
use ryan_mqtt.Platform.{Env, PacketInfo}
use ryan_mqtt.Public.{Error, packet_type_pubrec, packet_type_pubrel, qos2}
use ryan_mqtt.Network.Effect.{SameSession, messages, send_packet-SameSession, send_packet-Sends}
use ryan_mqtt.World.{World}
use ryan_mqtt.Ack.{ack_list_node_find, awaits}
use ryan_mqtt.Ack.Find.{ack_list_node_find-none, ack_list_node_find-some}
use ryan_mqtt.Event.{event_machine, notify}
use ryan_mqtt.Packet.{msg_data_of, publish_packet_handler, receive_first, receive_qos2}
use mathlib.Core.Path.{subst}

module _ (env : Env) (info : PacketInfo) where
  abbrev pub id_of : ℕ
  id_of = (env.deserialize_publish info).packet_id

  abbrev pub msg_of : MsgData
  msg_of = msg_data_of (env.deserialize_publish info).publish_info id_of

  find_awaited :
      (w : World)
      → Awaits id_of w
      → (h : AckHandler) × ((ack_list_node_find packet_type_pubrel id_of false w).0 ≡ some h)
  find_awaited w a =
      elim (find_at_cases (awaits packet_type_pubrel id_of) w.client.ack_handler_list) [
        | inl (e, k, r) ↦ absurd (a k)
        | inr (before, y, after, e, f) ↦
            (y, ground (arith, ack_list_node_find-some packet_type_pubrel id_of false w e))
      ]

  -- While a QoS 2 message waits for its PUBREL, its arrival again hands the user nothing.
  duplicate-messages :
      (w : World)
      → msg_of.qos ≡ qos2
      → Awaits id_of w
      → messages (publish_packet_handler env info w).1.trace ≡ messages w.trace
  unfolding publish_packet_handler receive_qos2 event_machine notify messages
  duplicate-messages w q a =
      let (h, e) = find_awaited w a in
      ground (arith, send_packet-Sends env (env.serialize_ack packet_type_pubrec id_of).buffer w)

  duplicate-SameSession :
      (w : World)
      → w.client.config.clean_session_flag ≡ false
      → msg_of.qos ≡ qos2
      → Awaits id_of w
      → SameSession w (publish_packet_handler env info w).1
  unfolding publish_packet_handler receive_qos2 event_machine notify
  duplicate-SameSession w c q a =
      let (h, e) = find_awaited w a in
      ground
        (arith, send_packet-SameSession env (env.serialize_ack packet_type_pubrec id_of).buffer w)

-- The first arrival of a message that is not awaited yet, on a session that outlives the
-- connection.
module _ (env : Env) (info : PacketInfo) where
  first-Arrived :
      (w : World)
      → w.client.config.clean_session_flag ≡ false
      → Listens w
      → (msg_of env info).qos ≡ qos2
      → keep (awaits packet_type_pubrel (id_of env info)) w.client.ack_handler_list ≡ []
      → (publish_packet_handler env info w).0 ≡ Error.success
      → Arrived env (msg_of env info) w (publish_packet_handler env info w).1
  unfolding publish_packet_handler receive_qos2
  first-Arrived w c l q fresh e =
      let s = env.serialize_ack packet_type_pubrec (id_of env info) in
      let w1 = (receive_first env (msg_of env info) s.buffer w).1 in
      elim (find_at_cases (awaits packet_type_pubrel (id_of env info)) w.client.ack_handler_list) [
        | inl (n, k, r) ↦ ground (
          arith,
          ack_list_node_find-none packet_type_pubrel (id_of env info) false w n,
          receive_first-Arrived env (msg_of env info) s.buffer w l,
          send_packet-Sends env s.buffer w1,
          send_packet-SameSession env s.buffer w1,
        )
        | inr (before, y, after, e', f) ↦ ground (arith, f.kept)
      ]

-- A run of incoming PUBLISH packets.
abbrev pub arrivals : Env → List PacketInfo → World → World
arrivals env [] w = w
arrivals env (info ∷ infos) w = arrivals env infos (publish_packet_handler env info w).1

-- Is this a QoS 2 message with a packet identifier?
abbrev pub Resends : Env → ℕ → PacketInfo → Type 0
Resends env packet_id info = ((msg_of env info).qos ≡ qos2) × (id_of env info ≡ packet_id)

duplicate-config :
    (env : Env) (info : PacketInfo) (w : World)
    → (msg_of env info).qos ≡ qos2
    → Awaits (id_of env info) w
    → (publish_packet_handler env info w).1.client.config ≡ w.client.config
unfolding publish_packet_handler receive_qos2 event_machine notify
duplicate-config env info w q a =
    let (h, e) = find_awaited env info w a in
    ground (
      arith,
      send_packet-Sends env (env.serialize_ack packet_type_pubrec (id_of env info)).buffer w,
    )

arrivals-messages :
    (env : Env) (packet_id : ℕ) (infos : List PacketInfo) (w : World)
    → w.client.config.clean_session_flag ≡ false
    → All (Resends env packet_id) infos
    → Awaits packet_id w
    → messages (arrivals env infos w).trace ≡ messages w.trace
arrivals-messages env packet_id [] w c r a = refl
arrivals-messages env packet_id (info ∷ infos) w c ((q, i), r) a =
    let v = (publish_packet_handler env info w).1 in
    let a' = subst (λ p. Awaits p w) (sym i) a in
    let kept = duplicate-SameSession env info w c q a' in
    let av = subst (λ hs. keep (awaits packet_type_pubrel packet_id) hs ≢ []) (sym kept.acks) a in
    arrivals-messages env packet_id infos v (ground (arith, duplicate-config env info w q a', c)) r
      av
    ∙ duplicate-messages env info w q a'

-- Exactly once: on a session that outlives the connection and with a callback that takes messages,
-- when a QoS 2 message whose identifier is not awaited arrives and the handler succeeds, then
-- however many messages with QoS 2 and the same identifier follow (before the PUBREL), and whether
-- the answers can be sent or not, the user is handed the first one and nothing else.
pub messages-arrivals :
    (env : Env) (info : PacketInfo) (infos : List PacketInfo) (w : World)
    → w.client.config.clean_session_flag ≡ false
    → Listens w
    → All (Resends env (id_of env info)) infos
    → (msg_of env info).qos ≡ qos2
    → keep (awaits packet_type_pubrel (id_of env info)) w.client.ack_handler_list ≡ []
    → (publish_packet_handler env info w).0 ≡ Error.success
    → messages (arrivals env (info ∷ infos) w).trace ≡ msg_of env info ∷ messages w.trace
messages-arrivals env info infos w c l r q fresh e =
    let a = first-Arrived env info w c l q fresh e in
    arrivals-messages env (id_of env info) infos (publish_packet_handler env info w).1
      (ap (λ x. x.clean_session_flag) a.config ∙ c) r a.awaited
    ∙ a.delivered
