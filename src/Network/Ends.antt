-- ===== src/Network/Ends.antt =====
-- The loop of RyanMqttSendPacket ends by its own test.
use ryan_mqtt.Prelude.{
  ℕ, List, ◌*◌, ◌+◌, ◌<◌, ◌≤◌, ◌≡◌, ◌⊎◌, false, arith, suc, zero, inl, inr, Bool-cases, refl,
}
use ryan_mqtt.Platform.{Env}
use ryan_mqtt.Client.{Timer}
use ryan_mqtt.Timer.{remain_at, timer_remain, timer_cutdown}
use ryan_mqtt.Network.{send_round, send_loop, Sending, sends_on, network_send, start_sending}
use ryan_mqtt.World.{World}

module _ (env : Env) (timer : Timer) (buf : List ℕ) where
  -- A round that reads that the time is up is the last one; any other asks the platform twice, or
  -- ends the loop too.
  send_round_last :
      (p : Sending) (w : World)
      → remain_at (env.uptime_ms (w.tick + 1)) timer ≡ 0
      → sends_on buf (send_round env timer buf p w).0 ≡ false
  unfolding send_round network_send timer_remain
  send_round_last p w up = ground arith

  send_round_next :
      (p : Sending) (w : World)
      → let (q, v) = send_round env timer buf p w in
        (sends_on buf q ≡ false) ⊎ (v.tick ≡ w.tick + 2)
  unfolding send_round network_send timer_remain
  send_round_next p w = ground arith

  send_loop-stopped :
      (rounds : ℕ) (p : Sending) (w : World)
      → sends_on buf p ≡ false
      → send_loop env timer buf rounds p w ≡ (p, w)
  unfolding send_loop
  send_loop-stopped zero p w off = refl
  send_loop-stopped (suc rounds) p w off = rw off

  send_loop_ends :
      (n rounds : ℕ) (p : Sending) (w : World)
      → n < rounds
      → remain_at (env.uptime_ms (w.tick + 2 * n + 1)) timer ≡ 0
      → sends_on buf (send_loop env timer buf rounds p w).0 ≡ false
  unfolding send_loop
  send_loop_ends n zero p w h up = absurd (omega arith)
  send_loop_ends zero (suc rounds) p w h up = elim (Bool-cases (sends_on buf p)) [
    | inl on ↦
        let same : w.tick + 2 * 0 + 1 ≡ w.tick + 1 = omega arith in
        let done = send_round_last p w (rw (← same) up) in
        rw (on, send_loop-stopped rounds _ _ done) done
    | inr off ↦ rw off off
  ]
  send_loop_ends (suc n) (suc rounds) p w h up = elim (Bool-cases (sends_on buf p)) [
    | inl on ↦ elim (send_round_next p w) [
      | inl done ↦ rw (on, send_loop-stopped rounds _ _ done) done
      | inr two ↦
          let (q, v) = send_round env timer buf p w in
          let same : v.tick + 2 * n + 1 ≡ w.tick + 2 * suc n + 1 = omega (arith, two) in
          rw on (send_loop_ends n rounds q v (omega (arith, h)) (rw same up))
    ]
    | inr off ↦ rw off off
  ]

-- If the time is up when some round `n` (counted from 0) of the loop of `RyanMqttSendPacket` reads the
-- timer, which is call 2 * n + 2 of the platform since each round sends once and reads the timer once,
-- and the model follows as many rounds, then the loop ends by its own test: all bytes are sent, the
-- time is up or the network failed. Nothing is supposed of what the network answers, nor of how
-- long a call takes that moves no byte.
pub start_sending_ends :
    (env : Env) (buf : List ℕ) (w : World) (n : ℕ)
    → n ≤ env.rounds
    → remain_at
        (env.uptime_ms (w.tick + 2 * n + 2))
        (timer_cutdown env w.client.config.send_timeout w).0
      ≡ 0
    → sends_on buf (start_sending env buf w).0 ≡ false
unfolding start_sending timer_cutdown
start_sending_ends env buf w n enough up =
    let timer = (timer_cutdown env w.client.config.send_timeout w).0 in
    let same : w.tick + 1 + 2 * n + 1 ≡ w.tick + 2 * n + 2 = omega arith in
    send_loop_ends env timer buf n (env.rounds + 1) _ _ (omega (arith, enough)) (rw same up)
