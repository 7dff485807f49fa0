-- ===== src/Network/Receives.antt =====
-- The loop of RyanMqttRecvPacket ends by its own test, and stays in its buffer.
use ryan_mqtt.Prelude.{
  Bool-cases, List, arith, false, inl, inr, length, length-append, refl, suc, zero, ℕ, ◌*◌, ◌+◌,
  ◌-◌, ◌<◌, ◌≡◌, ◌≤◌, ◌⊎◌,
}
use ryan_mqtt.Client.{Timer}
use ryan_mqtt.Platform.{Env, Received, bytes, recv_failed}
use ryan_mqtt.World.{World}
use ryan_mqtt.Timer.{remain_at, timer_cutdown, timer_remain}
use ryan_mqtt.Network.{
  Receiving, after_recv, receives_on, recv_loop, recv_round, recv_time, start_receiving,
}

-- `platformNetworkRecvAsync` as it is documented: at most the bytes asked for.
abbrev pub DeliversAtMost : Env → Type 0
DeliversAtMost env =
    (k len timeout : ℕ) (xs : List ℕ) → env.network_recv k len timeout ≡ bytes xs → length xs ≤ len

module _ (env : Env) (timer : Timer) (most : DeliversAtMost env) (len : ℕ) where
  after_recv-fits :
      (p : Receiving) (w : World) (r : Received)
      → env.network_recv w.tick (len - length p.got) p.time_out ≡ r
      → length p.got ≤ len
      → length (after_recv env timer p r (record w { tick = w.tick + 1 })).0.got ≤ len
  unfolding timer_remain
  after_recv-fits p w recv_failed e h = ground arith
  after_recv-fits p w (bytes xs) e h =
      ground (arith, length-append p.got xs, most w.tick (len - length p.got) p.time_out xs e)

  recv_loop-fits :
      (rounds : ℕ) (p : Receiving) (w : World)
      → length p.got ≤ len
      → length (recv_loop env timer len rounds p w).0.got ≤ len
  unfolding recv_loop recv_round
  recv_loop-fits zero p w h = h
  recv_loop-fits (suc rounds) p w h = elim (Bool-cases (receives_on len p)) [
    | inl on ↦ rw on (recv_loop-fits rounds _ _ (after_recv-fits p w _ refl h))
    | inr off ↦ rw off h
  ]

module _ (env : Env) (timer : Timer) (len : ℕ) where
  -- A round that reads that the time is up is the last one; any other asks the platform twice, or
  -- ends the loop too.
  after_recv_last :
      (p : Receiving) (r : Received) (w : World)
      → remain_at (env.uptime_ms w.tick) timer ≡ 0
      → receives_on len (after_recv env timer p r w).0 ≡ false
  unfolding timer_remain
  after_recv_last p recv_failed w up = ground arith
  after_recv_last p (bytes xs) w up = ground arith

  after_recv_next :
      (p : Receiving) (r : Received) (w : World)
      → let (q, v) = after_recv env timer p r w in
        (receives_on len q ≡ false) ⊎ (v.tick ≡ w.tick + 1)
  unfolding timer_remain
  after_recv_next p recv_failed w = ground arith
  after_recv_next p (bytes xs) w = ground arith

  recv_round_last :
      (p : Receiving) (w : World)
      → remain_at (env.uptime_ms (w.tick + 1)) timer ≡ 0
      → receives_on len (recv_round env timer len p w).0 ≡ false
  unfolding recv_round
  recv_round_last p w up = after_recv_last p _ _ up

  recv_round_next :
      (p : Receiving) (w : World)
      → let (q, v) = recv_round env timer len p w in
        (receives_on len q ≡ false) ⊎ (v.tick ≡ w.tick + 2)
  unfolding recv_round
  recv_round_next p w =
      let r = env.network_recv w.tick (len - length p.got) p.time_out in
      ground (arith, after_recv_next p r (record w { tick = w.tick + 1 }))

  recv_loop-stopped :
      (rounds : ℕ) (p : Receiving) (w : World)
      → receives_on len p ≡ false
      → recv_loop env timer len rounds p w ≡ (p, w)
  unfolding recv_loop
  recv_loop-stopped zero p w off = refl
  recv_loop-stopped (suc rounds) p w off = rw off refl

  recv_loop_ends :
      (n rounds : ℕ) (p : Receiving) (w : World)
      → n < rounds
      → remain_at (env.uptime_ms (w.tick + 2 * n + 1)) timer ≡ 0
      → receives_on len (recv_loop env timer len rounds p w).0 ≡ false
  unfolding recv_loop
  recv_loop_ends n zero p w h up = absurd (omega arith)
  recv_loop_ends zero (suc rounds) p w h up = elim (Bool-cases (receives_on len p)) [
    | inl on ↦
        let same : w.tick + 2 * 0 + 1 ≡ w.tick + 1 = omega arith in
        let done = recv_round_last p w (rw (← same) up) in
        rw (on, recv_loop-stopped rounds _ _ done) done
    | inr off ↦ rw off off
  ]
  recv_loop_ends (suc n) (suc rounds) p w h up = elim (Bool-cases (receives_on len p)) [
    | inl on ↦ elim (recv_round_next p w) [
      | inl done ↦ rw (on, recv_loop-stopped rounds _ _ done) done
      | inr two ↦
          let (q, v) = recv_round env timer len p w in
          let same : v.tick + 2 * n + 1 ≡ w.tick + 2 * suc n + 1 = omega (arith, two) in
          rw on (recv_loop_ends n rounds q v (omega (arith, h)) (rw same up))
    ]
    | inr off ↦ rw off off
  ]

-- If the time is up when some round `n` (counted from 0) of the loop of `RyanMqttRecvPacket` reads the
-- timer, which is call 2 * n + 2 of the platform since each round reads the network once and the timer
-- once, and the model follows as many rounds, then the loop ends by its own test: the bytes are there,
-- the time is up or the network failed. Nothing is supposed of how long a call takes that delivers
-- nothing. This supposes a platform that delivers at most the bytes asked for, and then the loop never
-- writes more bytes than the buffer has.
pub start_receiving_ends :
    (env : Env) (len : ℕ) (w : World) (n : ℕ)
    → DeliversAtMost env
    → n ≤ env.rounds
    → remain_at (env.uptime_ms (w.tick + 2 * n + 2)) (timer_cutdown env (recv_time w) w).0 ≡ 0
    → let p = (start_receiving env len w).0 in (receives_on len p ≡ false) × (length p.got ≤ len)
unfolding start_receiving timer_cutdown
start_receiving_ends env len w n most enough up =
    let timer = (timer_cutdown env (recv_time w) w).0 in
    let same : w.tick + 1 + 2 * n + 1 ≡ w.tick + 2 * n + 2 = omega arith in
    (
      recv_loop_ends env timer len n (env.rounds + 1) _ _ (omega (arith, enough)) (rw same up),
      recv_loop-fits env timer most len (env.rounds + 1) _ _ (omega arith),
    )
