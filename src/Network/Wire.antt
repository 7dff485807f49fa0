-- ===== src/Network/Wire.antt =====
-- What reaches the network.
use ryan_mqtt.Prelude.{
  ℕ, zero, suc, ◌+◌, ◌%◌, ◌^◌, ◌≤◌, ◌<◌, ◌≡◌, refl, sym, ◌≢◌, ap, List, [], ◌∷◌, ◌++◌, arith,
  append-nil, append_assoc, length, take, drop, take_all, length-drop, ◌⊎◌, inl, inr, Bool-cases,
  ◌==◌,
}
use ryan_mqtt.Client.{Timer}
use ryan_mqtt.Platform.{Env, pos, negsuc}
use ryan_mqtt.World.{World, connect_status}
use ryan_mqtt.Public.{Error, connect_net_work_fail}
use ryan_mqtt.Timer.{timer_cutdown}
use ryan_mqtt.Event.Effect.{event_machine-disconnected}
use ryan_mqtt.Network.{
  network_send, Sending, send_round, send_loop, start_sending, send_packet, is_negative,
}
use ryan_mqtt.Event.{refresh_keepalive_time}

-- `platformNetworkSendAsync` as it is documented: the number of bytes that it took, or -1.
abbrev pub AnswersCount : Env → Type 0
AnswersCount env =
    (tick : ℕ) (buf : List ℕ) (timeout : ℕ)
    → ((n : ℕ) × (env.network_send tick buf timeout ≡ pos n) × (n ≤ length buf))
      ⊎ (env.network_send tick buf timeout ≡ negsuc 0)

take_add :
    {A : Type 0} (m n k : ℕ) (xs : List A) → k ≡ m + n → take k xs ≡ take m xs ++ take n (drop m xs)
take_add zero n k xs e = let e' : k ≡ n = omega arith in rw e'
take_add (suc m) n zero xs e = absurd (omega arith)
take_add (suc m) zero (suc k) [] e = refl
take_add (suc m) (suc n) (suc k) [] e = refl
take_add (suc m) n (suc k) (x ∷ xs) e = ap (λ t. x ∷ t) (take_add m n k xs (omega arith))

-- The state of a loop that began with `base` on the wire.
record InStep (base buf : List ℕ) (p : Sending) (w : World) : Type 0 where
  on_wire : w.wire ≡ base ++ take p.offset buf
  within : p.offset ≤ length buf

module _ (env : Env) (timer : Timer) (count : AnswersCount env) (base buf : List ℕ)
    (small : length buf < 2 ^ 32) where
  send_round-InStep :
      (p : Sending) (w : World)
      → InStep base buf p w
      → let (q, v) = send_round env timer buf p w in InStep base buf q v
  unfolding send_round network_send
  send_round-InStep p w s = elim (count w.tick (drop p.offset buf) p.time_out) [
    | inl (n, e, h) ↦
        let total : (p.offset + n) % 2 ^ 32 ≡ p.offset + n =
          omega (arith, s.within, length-drop p.offset buf) in
        ground (
          arith,
          total,
          length-drop p.offset buf,
          take_add p.offset n ((p.offset + n) % 2 ^ 32) buf total,
          append_assoc base (take p.offset buf) (take n (drop p.offset buf)),
        )
    | inr e ↦ ground (arith, append-nil w.wire)
  ]

  send_loop-InStep :
      (rounds : ℕ) (p : Sending) (w : World)
      → InStep base buf p w
      → let (q, v) = send_loop env timer buf rounds p w in InStep base buf q v
  unfolding send_loop
  send_loop-InStep zero p w s = s
  send_loop-InStep (suc rounds) p w s = ground (
    arith,
    send_loop-InStep rounds (send_round env timer buf p w).0 (send_round env timer buf p w).1
        (send_round-InStep p w s),
  )

module _ (env : Env) (count : AnswersCount env) (buf : List ℕ) (small : length buf < 2 ^ 32) where
  start_sending-InStep : (w : World) → let (p, v) = start_sending env buf w in InStep w.wire buf p v
  unfolding start_sending timer_cutdown
  start_sending-InStep w =
      send_loop-InStep env _ count w.wire buf small _ _ _
        (record { on_wire = sym (append-nil w.wire); within = omega arith })

  -- If `RyanMqttSendPacket` answers success, the whole packet went to the network, behind all that
  -- went there before; otherwise a first part of it did, which may be empty or all of it. This
  -- supposes a platform that counts the bytes it took or answers -1, and a packet shorter than
  -- 2^32.
  pub send_packet-wire :
      (w : World)
      → let (r, v) = send_packet env buf w in
        ((r ≡ Error.success) × (v.wire ≡ w.wire ++ buf))
        ⊎ ((r ≢ Error.success) × ((n : ℕ) × (n ≤ length buf) × (v.wire ≡ w.wire ++ take n buf)))
  unfolding send_packet refresh_keepalive_time
  send_packet-wire w =
      let p = (start_sending env buf w).0 in
      let s = start_sending-InStep w in
      let closing =
        event_machine-disconnected env (connect_status connect_net_work_fail)
          (start_sending env buf w).1 in
      elim (Bool-cases (is_negative p.result)) [
        | inl broken ↦ inr (ground arith, (p.offset, s.within, ground (arith, s, closing)))
        | inr fine ↦ elim (Bool-cases (p.offset == length buf)) [
          | inl whole ↦ inl (ground arith, ground (arith, s, take_all buf))
          | inr short ↦ inr (ground arith, (p.offset, s.within, ground (arith, s)))
        ]
      ]
