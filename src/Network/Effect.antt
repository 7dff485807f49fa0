-- ===== src/Network/Effect.antt =====
-- What sending a packet does to the client and to the heap.
use ryan_mqtt.World.{Action, World, called, message, Balanced, EventData, connect_status}
use ryan_mqtt.World.Steady.{Steady}
use ryan_mqtt.Platform.{Env}
use ryan_mqtt.Prelude.{List, [], arith, refl, suc, zero, ℕ, ◌∷◌, ◌≡◌, ◌⊎◌, inl, inr, false, true}
use ryan_mqtt.Client.{MsgData, Timer}
use ryan_mqtt.Network.{
  Sending, network_send, send_loop, send_round, start_sending, send_packet, recv_round, recv_loop,
  start_receiving, recv_packet, Receiving,
}
use ryan_mqtt.Public.{connect_net_work_fail, disconnect_state, disconnected, received_data}
use ryan_mqtt.Timer.{timer_cutdown, timer_remain}
use ryan_mqtt.Event.{event_machine, refresh_keepalive_time, notify, on_disconnected}
use ryan_mqtt.Event.Effect.{on_disconnected_lem, event_machine-disconnected, notify_lem}

-- The session is as it was, or nothing is left of it, which a lost connection does to a clean one.
pub record SameSession (w v : World) : Type 0 where
  pub msgs : v.client.msg_handler_list ≡ w.client.msg_handler_list
  pub acks : v.client.ack_handler_list ≡ w.client.ack_handler_list
  pub user_acks : v.client.user_ack_handler_list ≡ w.client.user_ack_handler_list
  pub count : v.client.ack_handler_count ≡ w.client.ack_handler_count

pub record NoSession (v : World) : Type 0 where
  pub msgs : v.client.msg_handler_list ≡ []
  pub acks : v.client.ack_handler_list ≡ []
  pub user_acks : v.client.user_ack_handler_list ≡ []
  pub count : v.client.ack_handler_count ≡ 0
  pub state : v.client.client_state ≡ disconnect_state
  pub clean : v.client.config.clean_session_flag ≡ true

-- The messages that the user's callback was handed, the last one first.
unfoldable pub messages : List Action → List MsgData
messages [] = []
messages (called received_data (message m) ∷ actions) = m ∷ messages actions
messages (action ∷ actions) = messages actions

-- The loop moves bytes and the clock, and nothing else.
send_round_lem :
    (env : Env) (timer : Timer) (buf : List ℕ) (p : Sending) (w : World)
    → let v = (send_round env timer buf p w).1 in v ≡ record w { tick = v.tick; wire = v.wire }
unfolding send_round network_send timer_remain
send_round_lem env timer buf p w = ground arith

send_loop_lem :
    (env : Env) (timer : Timer) (buf : List ℕ) (rounds : ℕ) (p : Sending) (w : World)
    → let v = (send_loop env timer buf rounds p w).1 in
      v ≡ record w { tick = v.tick; wire = v.wire }
unfolding send_loop
send_loop_lem env timer buf zero p w = refl
send_loop_lem env timer buf (suc rounds) p w = ground (
  arith,
  send_round_lem env timer buf p w,
  send_loop_lem env timer buf rounds (send_round env timer buf p w).0
      (send_round env timer buf p w).1,
)

pub start_sending_lem :
    (env : Env) (buf : List ℕ) (w : World)
    → let v = (start_sending env buf w).1 in v ≡ record w { tick = v.tick; wire = v.wire }
unfolding start_sending timer_cutdown
start_sending_lem env buf w = send_loop_lem env _ buf _ _ _

-- Neither the event machine nor the user's callback is handed a message by a lost connection.
pub messages-disconnected :
    (env : Env) (d : EventData) (w : World)
    → messages (event_machine env disconnected d w).trace ≡ messages w.trace
unfolding event_machine notify messages
messages-disconnected env d w = ground (arith, on_disconnected_lem w)

-- What every call of `RyanMqttSendPacket` leaves as it was.
pub record Sends (w v : World) : Type 0 where
  pub steady : Steady w v
  pub packet_id : v.client.packet_id ≡ w.client.packet_id
  pub messages : messages v.trace ≡ messages w.trace
  pub balanced : Balanced 0 w v
  pub session : SameSession w v ⊎ NoSession v

send_result :
    (env : Env) (buf : List ℕ) (w : World)
    → let v = (start_sending env buf w).1 in
      ((send_packet env buf w).1 ≡ v)
      ⊎ ((send_packet env buf w).1 ≡ refresh_keepalive_time env v)
      ⊎ ((send_packet env buf w).1
          ≡ event_machine env disconnected (connect_status connect_net_work_fail) v)
unfolding send_packet
send_result env buf w = ground arith

pub disconnected-Sends :
    (env : Env) (d : EventData) (w : World) → Sends w (event_machine env disconnected d w)
unfolding event_machine
disconnected-Sends env d w = record {
  steady = ground (arith, on_disconnected_lem w, notify_lem disconnected d (on_disconnected w));
  packet_id = ground (arith, event_machine-disconnected env d w);
  messages = messages-disconnected env d w;
  balanced = ground (arith, event_machine-disconnected env d w);
  session = ground (arith, on_disconnected_lem w, notify_lem disconnected d (on_disconnected w));
}

-- Whether it succeeds or fails, `RyanMqttSendPacket` hands no message to the user, keeps the
-- settings, loses no block, and leaves the session alone or, after a lost connection, empty.
pub send_packet-Sends : (env : Env) (buf : List ℕ) (w : World) → Sends w (send_packet env buf w).1
unfolding refresh_keepalive_time timer_cutdown
send_packet-Sends env buf w = elim (send_result env buf w) [
  | inl e ↦ rw e (ground (arith, start_sending_lem env buf w))
  | inr (inl e) ↦ rw e (ground (arith, start_sending_lem env buf w))
  | inr (inr e) ↦ rw e (
      ground (
        arith,
        start_sending_lem env buf w,
        disconnected-Sends env (connect_status connect_net_work_fail) (start_sending env buf w).1,
      ))
]

recv_round_lem :
    (env : Env) (timer : Timer) (len : ℕ) (p : Receiving) (w : World)
    → let v = (recv_round env timer len p w).1 in v ≡ record w { tick = v.tick }
unfolding recv_round timer_remain
recv_round_lem env timer len p w = ground arith

recv_loop_lem :
    (env : Env) (timer : Timer) (len rounds : ℕ) (p : Receiving) (w : World)
    → let v = (recv_loop env timer len rounds p w).1 in v ≡ record w { tick = v.tick }
unfolding recv_loop
recv_loop_lem env timer len zero p w = refl
recv_loop_lem env timer len (suc rounds) p w = ground (
  arith,
  recv_round_lem env timer len p w,
  recv_loop_lem env timer len rounds (recv_round env timer len p w).0
      (recv_round env timer len p w).1,
)

pub start_receiving_lem :
    (env : Env) (len : ℕ) (w : World)
    → let v = (start_receiving env len w).1 in v ≡ record w { tick = v.tick }
unfolding start_receiving timer_cutdown
start_receiving_lem env len w = recv_loop_lem env _ len _ _ _

pub recv_result :
    (env : Env) (len : ℕ) (w : World)
    → let v = (start_receiving env len w).1 in
      ((recv_packet env len w).1 ≡ v)
      ⊎ ((recv_packet env len w).1
          ≡ event_machine env disconnected (connect_status connect_net_work_fail) v)
unfolding recv_packet
recv_result env len w = ground arith

-- The same of `RyanMqttRecvPacket`.
pub recv_packet-Sends : (env : Env) (len : ℕ) (w : World) → Sends w (recv_packet env len w).1
recv_packet-Sends env len w = elim (recv_result env len w) [
  | inl e ↦ rw e (ground (arith, start_receiving_lem env len w))
  | inr e ↦ rw e (
      ground (
        arith,
        start_receiving_lem env len w,
        disconnected-Sends env (connect_status connect_net_work_fail) (start_receiving env len w).1,
      ))
]

-- With a session that outlives the connection, sending leaves it alone also when it fails.
pub send_packet-SameSession :
    (env : Env) (buf : List ℕ) (w : World)
    → w.client.config.clean_session_flag ≡ false
    → SameSession w (send_packet env buf w).1
unfolding refresh_keepalive_time timer_cutdown event_machine
send_packet-SameSession env buf w h =
    let v = (start_sending env buf w).1 in
    ground (
      arith,
      send_result env buf w,
      start_sending_lem env buf w,
      on_disconnected_lem v,
      notify_lem disconnected (connect_status connect_net_work_fail) (on_disconnected v),
    )
