-- ===== src/Connect/Balance.antt =====
-- Connecting neither leaks heap blocks nor frees one twice, and leaves the settings alone.
use ryan_mqtt.Prelude.{Option-cases, arith, inl, inr, ◌+◌}
use ryan_mqtt.Platform.{Env, PacketInfo}
use ryan_mqtt.World.{Balanced, World, free, malloc}
use ryan_mqtt.World.Steady.{Steady}
use ryan_mqtt.Session.Purge.{purge_session_lem}
use ryan_mqtt.Event.{network_close}
use ryan_mqtt.Network.{send_packet}
use ryan_mqtt.Network.Effect.{send_packet-Sends}
use ryan_mqtt.Incoming.{Incoming, get_packet_info}
use ryan_mqtt.Incoming.Balance.{get_packet_info-Balanced, get_packet_info-Failed, payload_blocks}
use ryan_mqtt.Incoming.Steady.{get_packet_info-Reads}
use ryan_mqtt.Connect.{
  after_packet, await_connack, connect_broker, connect_info, exchange, network_connect,
  read_connack, will_info,
}

module _ (env : Env) where
  abbrev Connects : World → World → Type 0
  Connects w v = Balanced 0 w v × Steady w v

  read_connack-Connects : (info : PacketInfo) (w : World) → Connects w (read_connack env info w).1
  unfolding read_connack
  read_connack-Connects info w = ground (arith, purge_session_lem w)

  after_packet-Connects :
      (p : Incoming) (w v : World)
      → Balanced (payload_blocks env p) w v
      → Steady w v
      → Connects w (after_packet env p v).1
  unfolding after_packet free network_close
  after_packet-Connects p w v b s = ground (arith, read_connack-Connects p.info v, b, s)

  await_connack-Connects : (w : World) → Connects w (await_connack env w).1
  unfolding await_connack
  await_connack-Connects w =
      let (p, w1) = get_packet_info env w in
      let s = (get_packet_info-Reads env w).steady in
      elim (Option-cases p) [
        | inl e ↦ ground (arith, get_packet_info-Balanced env w, s)
        | inr (q, e) ↦ ground (
          arith,
          get_packet_info-Balanced env w,
          get_packet_info-Failed env w,
          s,
          after_packet-Connects q w w1,
        )
      ]

  exchange-Connects : (w : World) → Connects w (exchange env w).1
  unfolding exchange network_connect
  exchange-Connects w =
      let s = env.serialize_connect (connect_info w.client) (will_info w.client.lwt_options) in
      let w1 = record w { tick = w.tick + 1 } in
      let w2 = (send_packet env s.buffer w1).1 in
      ground (arith, send_packet-Sends env s.buffer w1, await_connack-Connects w2)

  -- Whatever the network, the server and the allocator answer, `RyanMqttConnectBroker` loses no
  -- block, leaves the settings, the will, the event mask and the mark for destruction alone, and
  -- the state but for a lost connection.
  pub connect_broker-Connects :
      (w : World) → Balanced 0 w (connect_broker env w).1 × Steady w (connect_broker env w).1
  unfolding connect_broker malloc free
  connect_broker-Connects w = ground (arith, exchange-Connects (malloc env w).1)
