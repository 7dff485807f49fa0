-- ===== src/Network/Broken.antt =====
-- Sending on a network that is gone.
use ryan_mqtt.Prelude.{List, [], arith, length, suc, true, ℕ, ◌<◌, ◌≡◌, ◌∷◌, zero}
use ryan_mqtt.Public.{connect_net_work_fail, disconnected}
use ryan_mqtt.Client.{Timer}
use ryan_mqtt.Platform.{Env, negsuc, pos}
use ryan_mqtt.World.{World, connect_status}
use ryan_mqtt.Timer.{timer_cutdown}
use ryan_mqtt.Event.{event_machine, on_disconnected}
use ryan_mqtt.Event.Effect.{notify_lem, on_disconnected_lem}
use ryan_mqtt.Network.{network_send, send_loop, send_packet, send_round, start_sending}
use ryan_mqtt.Network.Effect.{NoSession, start_sending_lem}

-- Each try to send answers -1.
abbrev pub BrokenNetwork : Env → Type 0
BrokenNetwork env =
    (tick : ℕ) (buf : List ℕ) (timeout : ℕ) → env.network_send tick buf timeout ≡ negsuc 0

module _ (env : Env) (broken : BrokenNetwork env) where
  send_loop-broken :
      (timer : Timer) (b : ℕ) (buf : List ℕ) (rounds : ℕ) (timeout : ℕ) (w : World)
      → 0 < timeout
      → 0 < rounds
      → (send_loop env timer
          (b ∷ buf)
          rounds
          (record { result = pos 0; offset = 0; time_out = timeout })
          w).0.result
        ≡ negsuc 0
  unfolding send_loop send_round network_send
  send_loop-broken timer b buf zero timeout w h k = absurd (omega arith)
  send_loop-broken timer b buf (suc zero) timeout w h k =
      ground (arith, broken w.tick (b ∷ buf) timeout)
  send_loop-broken timer b buf (suc (suc rounds)) timeout w h k =
      ground (arith, broken w.tick (b ∷ buf) timeout)

  start_sending-broken :
      (b : ℕ) (buf : List ℕ) (w : World)
      → 0 < w.client.config.send_timeout
      → (start_sending env (b ∷ buf) w).0.result ≡ negsuc 0
  unfolding start_sending timer_cutdown
  start_sending-broken b buf w h = send_loop-broken _ b buf _ _ _ h (omega arith)

  -- A clean session is empty behind a failed try.
  pub send_packet-BrokenNetwork :
      (packet : List ℕ) (w : World)
      → 0 < length packet
      → 0 < w.client.config.send_timeout
      → w.client.config.clean_session_flag ≡ true
      → NoSession (send_packet env packet w).1
  unfolding send_packet event_machine
  send_packet-BrokenNetwork [] w full h clean = absurd (omega arith)
  send_packet-BrokenNetwork (b ∷ buf) w full h clean =
      let v = (start_sending env (b ∷ buf) w).1 in
      ground (
        arith,
        start_sending-broken b buf w h,
        start_sending_lem env (b ∷ buf) w,
        on_disconnected_lem v,
        notify_lem disconnected (connect_status connect_net_work_fail) (on_disconnected v),
      )
