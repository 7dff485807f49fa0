-- ===== src/Keepalive/Effect.antt =====
-- Keeping the connection alive leaves the settings alone and loses no heap block.
use ryan_mqtt.Prelude.{arith, ◌+◌, ◌≡◌}
use ryan_mqtt.Public.{disconnect_state, disconnected, keepalive_timeout}
use ryan_mqtt.Platform.{Env}
use ryan_mqtt.World.{EventData, World, connect_status}
use ryan_mqtt.World.Steady.{Settled}
use ryan_mqtt.Timer.{timer_cutdown, timer_remain}
use ryan_mqtt.Event.{event_machine, on_disconnected}
use ryan_mqtt.Event.Effect.{notify_lem, on_disconnected_lem}
use ryan_mqtt.Network.Effect.{send_packet-Sends}
use ryan_mqtt.Keepalive.{keepalive, send_ping}

module _ (env : Env) where
  pub disconnected-Settled :
      (d : EventData) (w : World) → Settled w (event_machine env disconnected d w)
  unfolding event_machine
  disconnected-Settled d w =
      ground (arith, on_disconnected_lem w, notify_lem disconnected d (on_disconnected w))

  pub disconnected-state :
      (d : EventData) (w : World)
      → (event_machine env disconnected d w).client.client_state ≡ disconnect_state
  unfolding event_machine
  disconnected-state d w =
      ground (arith, on_disconnected_lem w, notify_lem disconnected d (on_disconnected w))

  send_ping-Settled : (w : World) → Settled w (send_ping env w).1
  unfolding send_ping timer_cutdown
  send_ping-Settled w = ground (arith, send_packet-Sends env env.serialize_pingreq.buffer w)

  pub keepalive-Settled : (w : World) → Settled w (keepalive env w).1
  unfolding keepalive timer_remain
  keepalive-Settled w =
      let w1 = record w { tick = w.tick + 1 } in
      let w2 = record w { tick = w.tick + 1 + 1 } in
      ground (
        arith,
        send_ping-Settled w1,
        send_ping-Settled w2,
        disconnected-Settled (connect_status keepalive_timeout) w1,
        disconnected-Settled (connect_status keepalive_timeout) w2,
      )
