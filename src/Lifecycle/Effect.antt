-- ===== src/Lifecycle/Effect.antt =====
-- What the end of a connection and the giving up of an acknowledgement do.
use ryan_mqtt.Prelude.{
  Bool, Bool-cases, ap, refl, IsFirst, List, [], append-nil, arith, false, find_at_cases,
  if◌then◌else◌, keep, inl, inr, leb, length, true, ℕ, ◌&&◌, ◌++◌, ◌<◌, ◌^◌, ◌∷◌, ◌≡◌, ◌≢◌, ◌⊎◌,
}
use ryan_mqtt.Public.{
  Error, ack_handler_discard, connect_state, connect_user_disconnected, disconnect_state,
  max_packet_id,
}
use ryan_mqtt.Client.{AckHandler, ack_blocks}
use ryan_mqtt.Platform.{Env}
use ryan_mqtt.World.{Balanced, World, ack_data, connect_status, free, malloc}
use ryan_mqtt.Session.{get_client_state}
use ryan_mqtt.Event.{event_machine}
use ryan_mqtt.Event.Effect.{event_machine-disconnected, notify_lem}
use ryan_mqtt.Network.Effect.{send_packet-Sends}
use ryan_mqtt.Network.Wire.{AnswersCount, send_packet-wire}
use ryan_mqtt.Handler.Balance.{ack_blocks-append, ack_handler_destroy_lem}
use ryan_mqtt.Ack.{ack_list_node_find, awaits}
use ryan_mqtt.Ack.Find.{ack_list_node_find-none, ack_list_node_find-some}
use ryan_mqtt.Handler.{ack_handler_destroy, ack_list_remove_to_ack_list}
use ryan_mqtt.Lifecycle.{disconnect, discard_ack_handler, send_disconnect}

-- What is sent before a connection ends.
abbrev pub farewell : Env → Bool → List ℕ
farewell env send_disc_flag = if send_disc_flag then env.serialize_disconnect.buffer else []

module _ (env : Env) (count : AnswersCount env)
    (small : length env.serialize_disconnect.buffer < 2 ^ 32) where
  send_disconnect_lem :
      (w : World)
      → let (e, v) = send_disconnect env w in
        (((e ≡ Error.success) × (v.wire ≡ w.wire ++ env.serialize_disconnect.buffer))
          ⊎ (e ≢ Error.success))
        × Balanced 0 w v
  unfolding send_disconnect malloc free
  send_disconnect_lem w =
      let w1 = (malloc env w).1 in
      ground (
        arith,
        send_packet-wire env count env.serialize_disconnect.buffer small w1,
        send_packet-Sends env env.serialize_disconnect.buffer w1,
      )

  -- If `RyanMqttDisconnect` answers success, the client was connected, is in the disconnected state
  -- now, and the whole DISCONNECT packet went to the network, if it was asked for, and nothing else.
  -- Whatever it answers, the number of live blocks changes as what the session owns. This supposes a platform that counts
  -- the bytes it took or answers -1, and a packet shorter than 2^32.
  pub disconnect_lem :
      (send_disc_flag : Bool) (w : World)
      → let (e, v) = disconnect env send_disc_flag w in
        (((e ≡ Error.success)
            × (get_client_state w ≡ connect_state)
            × (v.client.client_state ≡ disconnect_state)
            × (v.wire ≡ w.wire ++ farewell env send_disc_flag))
          ⊎ (e ≢ Error.success))
        × Balanced 0 w v
  unfolding disconnect get_client_state
  disconnect_lem false w = ground (
    arith,
    append-nil w.wire,
    event_machine-disconnected env (connect_status connect_user_disconnected) w,
  )
  disconnect_lem true w =
      let w1 = (send_disconnect env w).1 in
      ground (
        arith,
        send_disconnect_lem w,
        event_machine-disconnected env (connect_status connect_user_disconnected) w1,
      )

-- A handler is taken off the list, the user is told, and it is freed.
discarded :
    (env : Env) (packet_type packet_id : ℕ) (before : List AckHandler) (h : AckHandler)
    (after : List AckHandler) (w : World)
    → IsFirst (awaits packet_type packet_id) w.client.ack_handler_list before h after
    → let v = ack_handler_destroy h (
        event_machine env ack_handler_discard
          (ack_data h)
          (ack_list_remove_to_ack_list before after w)) in
      (v.client.ack_handler_list ≡ before ++ after) × Balanced 0 w v
unfolding event_machine ack_list_remove_to_ack_list
discarded env packet_type packet_id before h after w f =
    let w1 = ack_list_remove_to_ack_list before after w in
    let w2 = event_machine env ack_handler_discard (ack_data h) w1 in
    ground (
      arith,
      ap ack_blocks f.split,
      ack_blocks-append before (h ∷ after),
      ack_blocks-append before after,
      notify_lem ack_handler_discard (ack_data h) w1,
      ack_handler_destroy_lem h w2,
    )

pub discard_ack_handler_lem :
    (env : Env) (packet_type packet_id : ℕ) (w : World)
    → let (e, v) = discard_ack_handler env packet_type packet_id w in
      (((e ≡ Error.param_invalid) × ((packet_id ≡ 0) ⊎ (max_packet_id < packet_id)) × (v ≡ w))
        ⊎ ((e ≡ Error.no_rescource)
            × (keep (awaits packet_type packet_id) w.client.ack_handler_list ≡ [])
            × (v ≡ w))
        ⊎ ((e ≡ Error.success)
            × ((before : List AckHandler) × (h : AckHandler) × (after : List AckHandler) × IsFirst
                  (awaits packet_type packet_id)
                  w.client.ack_handler_list
                  before
                  h
                  after
                × (v.client.ack_handler_list ≡ before ++ after))))
      × Balanced 0 w v
unfolding discard_ack_handler
discard_ack_handler_lem env packet_type packet_id w =
    let (r, w1) = ack_list_node_find packet_type packet_id true w in
    elim (Bool-cases (leb 1 packet_id && leb packet_id max_packet_id)) [
      | inr n ↦ simp n (inl (refl, ground (arith, n), refl), omega arith)
      | inl y ↦ elim (find_at_cases (awaits packet_type packet_id) w.client.ack_handler_list) [
        | inl (e, k, _) ↦
            simp (y, ack_list_node_find-none packet_type packet_id true w e)
              (inr (inl (refl, k, refl)), omega arith)
        | inr (before, h, after, e, f) ↦
            let v = ack_list_remove_to_ack_list before after w in
            let d = discarded env packet_type packet_id before h after w f in
            simp (y, ack_list_node_find-some packet_type packet_id true w e)
              (inr (inr (refl, (before, h, after, f, d.0))), d.1)
      ]
    ]
