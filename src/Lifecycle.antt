-- ===== src/Lifecycle.antt =====
-- mqttclient/RyanMqttClient.c, lines 108 to 221, 793 to 807 and 1066 to 1088: starting, stopping and
-- reconnecting the client, and giving up an awaited acknowledgement.
pub mod Effect
pub mod Steady
use ryan_mqtt.Prelude.{
  Bool, List, Option, false, if◌then◌else◌, leb, none, not, some, true, ℕ, ◌&&◌, ◌+◌,
}
use ryan_mqtt.Public.{
  Error, State, ack_handler_discard, connect_user_disconnected, disconnect_state, disconnected,
  init_state, max_packet_id, start_state,
}
use ryan_mqtt.Platform.{Env}
use ryan_mqtt.World.{M, World, ack_data, connect_status, free, malloc}
use ryan_mqtt.Session.{get_client_state, set_client_state}
use ryan_mqtt.Event.{event_machine}
use ryan_mqtt.Network.{send_packet}
use ryan_mqtt.Handler.{ack_handler_destroy}
use ryan_mqtt.Ack.{ack_list_node_find}
use ryan_mqtt.Packet.{is_ok, is_success}
use ryan_mqtt.Keepalive.{is_connected}

-- `RyanMqttDestroy`
unfoldable pub destroy : M Error
destroy w = (Error.success, record w { client = record w.client { destroy_flag = true } })

abbrev pub is_init : State → Bool
is_init state = elim state [ init_state ↦ true | _ ↦ false ]

abbrev pub is_disconnected : State → Bool
is_disconnected state = elim state [ disconnect_state ↦ true | _ ↦ false ]

-- `RyanMqttStart`
unfoldable pub start : Env → M Error
start env w =
    let w1 = set_client_state start_state w in
    let e = env.thread_init w1.tick in
    let w2 = record w1 { tick = w1.tick + 1 } in
    if not (is_init (get_client_state w))
    then (Error.failed, w)
    else if not (is_ok e)
    then (Error.no_rescource, set_client_state init_state w2)
    else (e, w2)

-- The DISCONNECT packet of `RyanMqttDisconnect`.
unfoldable pub send_disconnect : Env → M Error
send_disconnect env w =
    let (allocated, w1) = malloc env w in
    let s = env.serialize_disconnect in
    let (e, w2) = send_packet env s.buffer w1 in
    if not allocated
    then (Error.not_enough_mem, w1)
    else if not (is_success s.status)
    then (Error.serialize_packet, free w1)
    else (e, free w2)

-- `RyanMqttDisconnect`
unfoldable pub disconnect : Env → Bool → M Error
disconnect env send_disc_flag w =
    let (e, w1) = if send_disc_flag then send_disconnect env w else (Error.success, w) in
    if not (is_connected (get_client_state w))
    then (Error.not_connect, w)
    else if not (is_ok e)
    then (e, w1)
    else (
      Error.success,
      event_machine env disconnected (connect_status connect_user_disconnected) w1,
    )

-- `RyanMqttReconnect`
unfoldable pub reconnect : Env → M Error
reconnect env w =
    if not (is_disconnected (get_client_state w))
    then (Error.connect_error, w)
    else if w.client.config.auto_reconnect_flag
    then (Error.no_rescource, w)
    else (env.thread_start w.tick, record w { tick = w.tick + 1 })

-- `RyanMqttDiscardAckHandler`
unfoldable pub discard_ack_handler : Env → ℕ → ℕ → M Error
discard_ack_handler env packet_type packet_id w =
    let (found, w1) = ack_list_node_find packet_type packet_id true w in
    if not (leb 1 packet_id && leb packet_id max_packet_id)
    then (Error.param_invalid, w)
    else elim found [
      | none ↦ (Error.no_rescource, w1)
      | some h ↦ (
        Error.success,
        ack_handler_destroy h (event_machine env ack_handler_discard (ack_data h) w1),
      )
    ]
