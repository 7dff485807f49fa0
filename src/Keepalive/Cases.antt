-- ===== src/Keepalive/Cases.antt =====
-- When the client asks the server for a sign of life, and when it gives the connection up.
use ryan_mqtt.Prelude.{
  Bool-cases, arith, inl, inr, length, ltb, true, ◌*◌, ◌++◌, ◌+◌, ◌<◌, ◌==◌, ◌^◌, ◌≡◌, ◌≢◌, ◌≤◌,
  ◌⊎◌,
}
use ryan_mqtt.Public.{Error, disconnect_state, keepalive_timeout}
use ryan_mqtt.Platform.{Env}
use ryan_mqtt.World.{World, connect_status}
use ryan_mqtt.Timer.{remain_at, timer_cutdown, timer_remain}
use ryan_mqtt.Event.Effect.{event_machine-disconnected}
use ryan_mqtt.Network.Wire.{AnswersCount, send_packet-wire}
use ryan_mqtt.Keepalive.{is_connected, keepalive, send_ping}

module _ (env : Env) (count : AnswersCount env)
    (small : length env.serialize_pingreq.buffer < 2 ^ 32) where
  -- The whole PINGREQ is on the wire, or the call fails.
  send_ping_cases :
      (w : World)
      → let (e, v) = send_ping env w in
        ((e ≡ Error.success) × (v.wire ≡ w.wire ++ env.serialize_pingreq.buffer))
        ⊎ (e ≢ Error.success)
  unfolding send_ping timer_cutdown
  send_ping_cases w =
      ground (arith, send_packet-wire env count env.serialize_pingreq.buffer small w)

  -- On a connected client, one call either finds no time left on the keep-alive timer, closes the
  -- connection and sends nothing; or there is more time left than one receive and 100 ms, and either
  -- more than 600 ms for each second of the interval or a ping was sent a short time ago, and
  -- nothing changes but the clock; or there is time left, but not that much or no ping was sent
  -- lately, and then the whole PINGREQ is sent or the call fails. This supposes a platform that
  -- counts the bytes it took or answers -1, and a PINGREQ shorter than 2^32.
  pub keepalive_cases :
      (w : World)
      → is_connected w.client.client_state ≡ true
      → let remain = remain_at (env.uptime_ms w.tick) w.client.keepalive_timer in
        let throttle = remain_at (env.uptime_ms (w.tick + 1)) w.client.keepalive_throttle_timer in
        let (e, v) = keepalive env w in
        ((remain ≡ 0)
          × (e ≡ Error.failed)
          × (v.client.client_state ≡ disconnect_state)
          × (v.wire ≡ w.wire))
        ⊎ ((w.client.config.recv_timeout + 100 < remain)
            × ((w.client.config.keepalive_timeout_s * 600 < remain) ⊎ (throttle ≢ 0))
            × (e ≡ Error.success)
            × (v ≡ record w { tick = v.tick }))
        ⊎ ((remain ≢ 0)
            × ((remain ≤ w.client.config.recv_timeout + 100)
                ⊎ ((remain ≤ w.client.config.keepalive_timeout_s * 600) × (throttle ≡ 0)))
            × (((e ≡ Error.success) × (v.wire ≡ w.wire ++ env.serialize_pingreq.buffer))
                ⊎ (e ≢ Error.success)))
  unfolding keepalive timer_remain
  keepalive_cases w h =
      let remain = remain_at (env.uptime_ms w.tick) w.client.keepalive_timer in
      let w1 = record w { tick = w.tick + 1 } in
      let w2 = record w { tick = w.tick + 2 } in
      elim (Bool-cases (ltb (w.client.config.recv_timeout + 100) remain)) [
        | inl early ↦ ground (arith, send_ping_cases w2)
        | inr late ↦ elim (Bool-cases (remain == 0)) [
          | inl over ↦
              ground (arith, event_machine-disconnected env (connect_status keepalive_timeout) w1)
          | inr left ↦ ground (arith, send_ping_cases w1)
        ]
      ]
