-- ===== src/Packet/Arrival.antt =====
-- Receiving with QoS 2: the first arrival of a message.
-- The client waits for the PUBREL that belongs to a packet identifier.
use ryan_mqtt.Client.{AckHandler, MsgData, MsgHandler}
use ryan_mqtt.Prelude.{
  Bool, List, [], arith, bit_and, false, inl, inr, keep, true, ℕ, ◌++◌, ◌∷◌, ◌≡◌, ◌≢◌,
}
use ryan_mqtt.Platform.{Env}
use ryan_mqtt.Public.{Error, event_id, msg_invalid_packet_id, packet_type_pubrel, received_data}
use ryan_mqtt.World.{World, called, message}
use ryan_mqtt.Handler.{ack_handler_create, msg_handler_create}
use ryan_mqtt.Handler.Create.{ack_handler_create_cases, msg_handler_create_cases, new_ack_handler}
use ryan_mqtt.Ack.{ack_list_add_to_ack_list, awaits}
use ryan_mqtt.Ack.Effect.{ack_list_add_to_ack_list-messages, ack_list_add_to_ack_list_lem}
use ryan_mqtt.Event.{event_machine, notify}
use ryan_mqtt.Network.Effect.{messages}
use ryan_mqtt.Packet.{receive_first}

abbrev pub Awaits : ℕ → World → Type 0
Awaits packet_id w = keep (awaits packet_type_pubrel packet_id) w.client.ack_handler_list ≢ []

-- The user's callback takes incoming messages.
abbrev pub Listens : World → Type 0
Listens w =
    (w.client.config.has_event_handle ≡ true)
    × (bit_and w.client.event_flag (event_id received_data) ≢ 0)

keep-append-≢ :
    (p : AckHandler → Bool) (xs : List AckHandler) (h : AckHandler)
    → p h ≡ true
    → keep p (xs ++ h ∷ []) ≢ []
keep-append-≢ p [] h e = ground arith
keep-append-≢ p (x ∷ xs) h e = ground (arith, keep-append-≢ p xs h e)

module _ (env : Env) (msg : MsgData) where
  -- What a first arrival that succeeds does.
  pub record Arrived (w v : World) : Type 0 where
    pub delivered : messages v.trace ≡ msg ∷ messages w.trace
    pub awaited : Awaits msg.packet_id v
    pub config : v.client.config ≡ w.client.config

  deliver_lem :
      (w : World)
      → Listens w
      → event_machine env received_data (message msg) w
        ≡ record w { trace = called received_data (message msg) ∷ w.trace }
  unfolding event_machine notify
  deliver_lem w l = ground (arith, l)

  abbrev received : MsgHandler
  received = record {
    user_data = 0;
    topic = msg.topic;
    qos = msg.qos;
    packet_id = msg_invalid_packet_id;
  }

  module _ (buffer : List ℕ) (w : World) where
    abbrev waiting : World → MsgHandler → AckHandler
    waiting v new = new_ack_handler env packet_type_pubrel msg.packet_id buffer new false v

    awaits-waiting :
        (v : World) (new : MsgHandler)
        → awaits packet_type_pubrel msg.packet_id (waiting v new) ≡ true
    unfolding awaits
    awaits-waiting v new = ground arith

    wait_lem :
        (h : AckHandler) (v : World)
        → awaits packet_type_pubrel msg.packet_id h ≡ true
        → messages v.trace ≡ msg ∷ messages w.trace
        → v.client.config ≡ w.client.config
        → Arrived w (ack_list_add_to_ack_list env h v)
    wait_lem h v a m c = record {
      delivered = ground (arith, ack_list_add_to_ack_list-messages env h v);
      awaited = ground (
        arith,
        ack_list_add_to_ack_list_lem env h v,
        keep-append-≢ (awaits packet_type_pubrel msg.packet_id) v.client.ack_handler_list h a,
      );
      config = ground (arith, ack_list_add_to_ack_list_lem env h v);
    }

    pub receive_first-Arrived :
        Listens w
        → (receive_first env msg buffer w).0 ≡ Error.success
        → Arrived w (receive_first env msg buffer w).1
    unfolding receive_first messages
    receive_first-Arrived l e =
        let w1 = event_machine env received_data (message msg) w in
        let (made, w2) = msg_handler_create env msg.topic msg_invalid_packet_id msg.qos 0 w1 in
        elim (msg_handler_create_cases env msg.topic msg_invalid_packet_id msg.qos 0 w1) [
          | inl (n, t) ↦ ground arith
          | inr (s, t) ↦
              let (r, w3) =
                ack_handler_create env packet_type_pubrel msg.packet_id buffer received false w2 in
              elim (ack_handler_create_cases env packet_type_pubrel msg.packet_id buffer received
                false w2) [
                  | inl (n', t') ↦ ground arith
                  | inr (s', t') ↦
                      let d = deliver_lem w l in
                      let a =
                        wait_lem (waiting w2 received) w3 (awaits-waiting w2 received)
                          (ground arith) (ground arith) in
                      rw (receive_first, s, s') a
                ]
        ]
