-- ===== src/Network.antt =====
-- mqttclient/RyanMqttUtil.c, lines 41 to 194: sending and receiving.
-- A loop is followed for `rounds` rounds of the platform and one more: Network/Ends and
-- Network/Receives say when these are all rounds of the loop in C. The fault injection under
-- RyanMqttLinuxTestEnable is left out.
pub mod Wire
pub mod Ends
pub mod Effect
pub mod Broken
pub mod Reads
pub mod Receives
use ryan_mqtt.Prelude.{
  ℕ, zero, suc, ◌+◌, ◌-◌, ◌%◌, ◌^◌, Bool, true, false, not, ◌&&◌, List, [], ◌∷◌, ◌++◌, ltb, ◌==◌,
  if◌then◌else◌, length, take, drop,
}
use ryan_mqtt.Public.{Error, disconnected, connect_net_work_fail}
use ryan_mqtt.Client.{Timer}
use ryan_mqtt.Platform.{Env, ℤ, pos, negsuc, Received, bytes, recv_failed}
use ryan_mqtt.World.{World, M, connect_status}
use ryan_mqtt.Timer.{timer_cutdown, timer_remain}
use ryan_mqtt.Event.{event_machine, refresh_keepalive_time}

abbrev taken : ℤ → List ℕ → List ℕ
taken (pos n) xs = take n xs
taken (negsuc n) xs = []

-- `platformNetworkSendAsync`: the bytes that it took are on the wire.
unfoldable pub network_send : Env → List ℕ → ℕ → M ℤ
network_send env buf timeout w =
    let answer = env.network_send w.tick buf timeout in
    (answer, record w { tick = w.tick + 1; wire = w.wire ++ taken answer buf })

-- `offset += result` on a `uint32_t` and an `int32_t`.
abbrev advance : ℕ → ℤ → ℕ
advance offset (pos n) = (offset + n) % 2 ^ 32
advance offset (negsuc n) = (offset + 2 ^ 32 - suc n) % 2 ^ 32

abbrev is_minus_one : ℤ → Bool
is_minus_one (pos n) = false
is_minus_one (negsuc zero) = true
is_minus_one (negsuc (suc n)) = false

abbrev is_negative : ℤ → Bool
is_negative (pos n) = false
is_negative (negsuc n) = true

-- The variables of a sending loop.
pub record Sending : Type 0 where
  pub result : ℤ
  pub offset : ℕ
  pub time_out : ℕ

-- The test of the loop, with the `break` behind the call folded in.
abbrev pub sends_on : List ℕ → Sending → Bool
sends_on buf p = ltb p.offset (length buf) && ltb 0 p.time_out && not (is_minus_one p.result)

-- One round of the loop.
unfoldable pub send_round : Env → Timer → List ℕ → Sending → M Sending
unfolding network_send timer_remain
send_round env timer buf p w =
    let (answer, w1) = network_send env (drop p.offset buf) p.time_out w in
    let (remaining, w2) = timer_remain env timer w1 in
    if is_minus_one answer
    then (record p { result = answer }, w1)
    else (record { result = answer; offset = advance p.offset answer; time_out = remaining }, w2)

unfoldable pub send_loop : Env → Timer → List ℕ → ℕ → Sending → M Sending
unfolding send_round
send_loop env timer buf zero p w = (p, w)
send_loop env timer buf (suc rounds) p w =
    let (q, v) = send_round env timer buf p w in
    let rest = send_loop env timer buf rounds q v in if sends_on buf p then rest else (p, w)

-- `RyanMqttSendPacket` up to the end of its loop.
unfoldable pub start_sending : Env → List ℕ → M Sending
start_sending env buf w =
    let timeout = w.client.config.send_timeout in
    let (timer, w1) = timer_cutdown env timeout w in
    send_loop env timer buf (env.rounds + 1)
      (record { result = pos 0; offset = 0; time_out = timeout }) w1

-- `RyanMqttSendPacket`
unfoldable pub send_packet : Env → List ℕ → M Error
send_packet env buf w =
    let (p, v) = start_sending env buf w in
    if is_negative p.result
    then (
      Error.socket_failed,
      event_machine env disconnected (connect_status connect_net_work_fail) v,
    )
    else if not (p.offset == length buf)
    then (Error.send_packet_time_out, v)
    else (Error.success, refresh_keepalive_time env v)

-- The variables of a receiving loop: `got` is the part of the buffer before the offset.
pub record Receiving : Type 0 where
  pub broken : Bool
  pub got : List ℕ
  pub time_out : ℕ

abbrev pub receives_on : ℕ → Receiving → Bool
receives_on len p = ltb (length p.got) len && ltb 0 p.time_out && not p.broken

abbrev pub after_recv : Env → Timer → Receiving → Received → World → Receiving × World
after_recv env timer p recv_failed w = (record p { broken = true }, w)
after_recv env timer p (bytes xs) w =
    let (remaining, v) = timer_remain env timer w in
    (record { broken = false; got = p.got ++ xs; time_out = remaining }, v)

-- One round of the loop: `platformNetworkRecvAsync`, and the time that is left.
unfoldable pub recv_round : Env → Timer → ℕ → Receiving → M Receiving
unfolding timer_remain
recv_round env timer len p w =
    after_recv env timer p (env.network_recv w.tick (len - length p.got) p.time_out)
      (record w { tick = w.tick + 1 })

unfoldable pub recv_loop : Env → Timer → ℕ → ℕ → Receiving → M Receiving
unfolding recv_round
recv_loop env timer len zero p w = (p, w)
recv_loop env timer len (suc rounds) p w =
    let (q, v) = recv_round env timer len p w in
    let rest = recv_loop env timer len rounds q v in if receives_on len p then rest else (p, w)

-- The time to wait: at most 100 ms while acknowledgements are to be handled.
unfoldable pub recv_time : World → ℕ
recv_time w =
    if w.client.pending_ack_flag
    then (if ltb 100 w.client.config.recv_timeout then 100 else w.client.config.recv_timeout)
    else w.client.config.recv_timeout

-- `RyanMqttRecvPacket` up to the end of its loop.
unfoldable pub start_receiving : Env → ℕ → M Receiving
unfolding recv_time
start_receiving env len w =
    let timeout = recv_time w in
    let (timer, w1) = timer_cutdown env timeout w in
    recv_loop env timer len (env.rounds + 1)
      (record { broken = false; got = []; time_out = timeout }) w1

-- `RyanMqttRecvPacket`: the error and the buffer.
unfoldable pub recv_packet : Env → ℕ → M (Error × List ℕ)
recv_packet env len w =
    let (p, v) = start_receiving env len w in
    if p.broken
    then (
      (Error.socket_failed, p.got),
      event_machine env disconnected (connect_status connect_net_work_fail) v,
    )
    else if not (length p.got == len)
    then ((Error.recv_packet_time_out, p.got), v)
    else ((Error.success, p.got), v)
