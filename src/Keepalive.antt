-- ===== src/Keepalive.antt =====
-- mqttclient/RyanMqttThread.c, lines 20 to 82: keeping the connection alive.
pub mod Cases
pub mod Effect
use ryan_mqtt.Prelude.{Bool, false, if◌then◌else◌, ltb, not, true, ◌&&◌, ◌*◌, ◌+◌, ◌==◌, ◌||◌, ℕ}
use ryan_mqtt.Public.{
  Error, State, connect_state, disconnect_state, disconnected, init_state, invalid_state,
  keepalive_timeout, reconnect_state, start_state,
}
use ryan_mqtt.Platform.{Env}
use ryan_mqtt.World.{M, World, connect_status}
use ryan_mqtt.Timer.{timer_cutdown, timer_remain}
use ryan_mqtt.Session.{get_client_state}
use ryan_mqtt.Event.{event_machine}
use ryan_mqtt.Network.{send_packet}
use ryan_mqtt.Packet.{is_ok, is_success}

-- `RyanMqttConnectState == state`
abbrev pub is_connected : State → Bool
is_connected state = elim state [ connect_state ↦ true | _ ↦ false ]

-- The last part of `RyanMqttKeepalive`: the PINGREQ, and the timer that holds the next one back.
send_ping : Env → M Error
send_ping env w =
    let s = env.serialize_pingreq in
    if not (is_success s.status)
    then (Error.serialize_packet, w)
    else let (e, v) = send_packet env s.buffer w in
      let (timer, u) = timer_cutdown env (v.client.config.recv_timeout + 1500) v in
      if is_ok e
      then (
        Error.success,
        record u { client = record u.client { keepalive_throttle_timer = timer } },
      )
      else (e, v)

-- `RyanMqttKeepalive`. The bound in C is `keepaliveTimeoutS * 1000 * (1.5 - 0.9)` in floating point,
-- which is exactly 600 for each second: the factor is the double nearest to 0.6, and the product is
-- rounded to the whole number.
pub keepalive : Env → M Error
unfolding get_client_state timer_remain
keepalive env w =
    let (remain, w1) = timer_remain env w.client.keepalive_timer w in
    let (throttle, w2) = timer_remain env w1.client.keepalive_throttle_timer w1 in
    let early = ltb (w.client.config.recv_timeout + 100) remain in
    if not (is_connected (get_client_state w))
    then (Error.not_connect, w)
    else if early && ltb (w.client.config.keepalive_timeout_s * 600) remain
    then (Error.success, w1)
    else if early && not (throttle == 0)
    then (Error.success, w2)
    else let v = if early then w2 else w1 in
      if remain == 0
      then (Error.failed, event_machine env disconnected (connect_status keepalive_timeout) v)
      else send_ping env v
