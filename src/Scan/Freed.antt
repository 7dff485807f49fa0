-- ===== src/Scan/Freed.antt =====
-- The scan of mqttclient/RyanMqttThread.c, lines 93 to 244, on a clean session and a network that
-- is gone.
use ryan_mqtt.Prelude.{
  List, [], arith, false, length, ltb, refl, true, ℕ, ◌+◌, ◌-◌, ◌<◌, ◌∷◌, ◌≡◌, if◌then◌else◌,
}
use ryan_mqtt.Client.{AckHandler, Timer}
use ryan_mqtt.Platform.{Env}
use ryan_mqtt.World.{World}
use ryan_mqtt.Timer.{remain_at, sub32, timer_cutdown, timer_remain}
use ryan_mqtt.Session.{get_client_state}
use ryan_mqtt.Keepalive.{is_connected}
use ryan_mqtt.Network.Broken.{BrokenNetwork, send_packet-BrokenNetwork}
use ryan_mqtt.Scan.{ack_list_scan, handle_timeout, is_publish_type, marked, resend, scan_loop}
use ryan_mqtt.Scan.Resend.{announced, announced_lem, resend-gone}

module _ (env : Env) (broken : BrokenNetwork env) (now : ℕ)
    (frozen : (k : ℕ) → env.uptime_ms k ≡ now) where
  resend-BrokenNetwork :
      (h : AckHandler) (rest : List AckHandler) (w : World)
      → w.client.ack_handler_list ≡ h ∷ rest
      → 0 < length (marked env h).packet
      → 0 < w.client.config.send_timeout
      → w.client.config.clean_session_flag ≡ true
      → (resend env [] h rest w).1.dangling ≡ true
  resend-BrokenNetwork h rest w place full time clean =
      let a = announced_lem env [] h rest w place in
      let gone =
        send_packet-BrokenNetwork env broken (marked env h).packet (announced env [] h rest w place)
          full (ground (arith, a)) (ground (arith, a)) in
      rw (resend-gone env [] h rest w place gone) refl

  remain_now : (timeout : ℕ) → remain_at now (record { time = now; time_out = timeout }) ≡ timeout
  unfolding remain_at sub32
  remain_now timeout = ground arith

  scan_loop-BrokenNetwork :
      (window throttle : ℕ) (h : AckHandler) (rest : List AckHandler) (w : World)
      → w.client.ack_handler_list ≡ h ∷ rest
      → is_connected w.client.client_state ≡ true
      → is_publish_type h.packet_type ≡ true
      → 0 < window
      → 0 < length (marked env h).packet
      → 0 < w.client.config.send_timeout
      → w.client.config.clean_session_flag ≡ true
      → let window_timer : Timer = record { time = now; time_out = window } in
        (scan_loop env false window_timer [] (h ∷ rest) throttle w).1.dangling ≡ true
  unfolding scan_loop timer_remain handle_timeout get_client_state
  scan_loop-BrokenNetwork window throttle h rest w place on publish open_window full time clean =
      ground (
        arith,
        frozen w.tick,
        remain_now window,
        resend-BrokenNetwork h rest (record w { tick = w.tick + 1 + 1 }) place full time clean,
      )

  -- When the scan that follows a connection comes to an unanswered publish while the network is
  -- gone already, and the session is a clean one, then it goes on from a handler that it freed.
  -- This supposes a send timeout and a receive timeout, a packet, and a scan that is not throttled
  -- and that runs within one ms.
  pub ack_list_scan-BrokenNetwork :
      (h : AckHandler) (rest : List AckHandler) (w : World)
      → w.client.ack_handler_list ≡ h ∷ rest
      → is_connected w.client.client_state ≡ true
      → is_publish_type h.packet_type ≡ true
      → remain_at now w.client.ack_scan_throttle_timer ≡ 0
      → 0 < w.client.config.recv_timeout
      → 0 < length (marked env h).packet
      → 0 < w.client.config.send_timeout
      → w.client.config.clean_session_flag ≡ true
      → (ack_list_scan env false w).dangling ≡ true
  unfolding ack_list_scan timer_remain timer_cutdown
  ack_list_scan-BrokenNetwork h rest w place on publish due recv full time clean =
      let window =
        if ltb 100 w.client.config.recv_timeout
        then w.client.config.recv_timeout - 100
        else w.client.config.recv_timeout in
      let loop =
        scan_loop-BrokenNetwork window 1000 h rest (record w { tick = w.tick + 1 + 1 }) place on
          publish (ground arith) full time clean in
      simp (frozen, due, on, place, loop)
