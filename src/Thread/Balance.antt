-- ===== src/Thread/Balance.antt =====
-- One round of the thread loses no heap block and keeps to the order of the states.
use ryan_mqtt.Prelude.{
  Bool-cases, Option, Option-cases, arith, false, inl, inr, none, not, refl, some, true, ℕ, ◌≡◌,
  ◌⊎◌, ◌∷◌,
}
use ryan_mqtt.Public.{
  Error, State, connect_state, connected, disconnect_state, init_state, invalid_state,
  reconnect_before, reconnect_state, start_state,
}
use ryan_mqtt.Platform.{Env}
use ryan_mqtt.World.{Balanced, World, connect_status, delayed, no_data}
use ryan_mqtt.World.Steady.{Settled-trans}
use ryan_mqtt.Timer.{timer_cutdown}
use ryan_mqtt.Packet.{is_ok}
use ryan_mqtt.Session.{get_client_state, set_client_state}
use ryan_mqtt.Event.{notify, event_machine, event_machine_with, refresh_keepalive_time}
use ryan_mqtt.Event.Effect.{notify_lem}
use ryan_mqtt.Incoming.{process_packet_handler}
use ryan_mqtt.Incoming.Balance.{process_packet_handler-Balanced}
use ryan_mqtt.Incoming.Steady.{process_packet_handler-Steady}
use ryan_mqtt.Keepalive.Effect.{disconnected-Settled, disconnected-state, keepalive-Settled}
use ryan_mqtt.Keepalive.{keepalive}
use ryan_mqtt.Scan.{ack_list_scan}
use ryan_mqtt.Scan.Loop.{ack_list_scan-Scanned}
use ryan_mqtt.Connect.{connect_broker}
use ryan_mqtt.Connect.Balance.{connect_broker-Connects}
use ryan_mqtt.Thread.{
  Round, after_connect, after_process, goes_on, overran, sleeps, ends, state_round, thread_round,
  wake,
}

-- What no round changes but the state.
pub record Kept (w v : World) : Type 0 where
  pub balanced : Balanced 0 w v
  pub config : v.client.config ≡ w.client.config
  pub lwt_options : v.client.lwt_options ≡ w.client.lwt_options
  pub event_flag : v.client.event_flag ≡ w.client.event_flag
  pub destroy_flag : v.client.destroy_flag ≡ w.client.destroy_flag

-- The states that may follow one another: a start or a new try ends connected or disconnected; a
-- connection is kept or lost; and only from disconnected there is a new try.
pub data Follows : State → State → Type 0 where
  start_up : Follows start_state connect_state
  start_failed : Follows start_state disconnect_state
  retry_up : Follows reconnect_state connect_state
  retry_failed : Follows reconnect_state disconnect_state
  stays_up : Follows connect_state connect_state
  lost : Follows connect_state disconnect_state
  retries : Follows disconnect_state reconnect_state

pub record Moves (w v : World) : Type 0 where
  pub kept : Kept w v
  pub follows : Follows w.client.client_state v.client.client_state

Follows-at : {s t s' t' : State} → Follows s t → s' ≡ s → t' ≡ t → Follows s' t'
Follows-at f a b = rw (a, b) f

-- What a round may end in.
abbrev pub RoundMoves : World → Round → Type 0
RoundMoves w (goes_on v) = Moves w v
RoundMoves w (sleeps v) = (v.client ≡ w.client) × (w.client.client_state ≡ disconnect_state)
RoundMoves w (ends v) = Unit {0}
RoundMoves w (overran v) = Kept w v

-- The states of a client whose thread runs.
abbrev pub IsStarted : State → Type 0
IsStarted start_state = Unit {0}
IsStarted reconnect_state = Unit {0}
IsStarted connect_state = Unit {0}
IsStarted disconnect_state = Unit {0}
IsStarted init_state = ⊥
IsStarted invalid_state = ⊥

module _ (env : Env) where
  -- The connection is up, or it was lost at once.
  on_connected :
      (code : ℕ) (w : World)
      → w.dangling ≡ false
      → let v =
          event_machine_with env (ack_list_scan env false) connected (connect_status code) w in
        Kept w v
        × ((v.client.client_state ≡ connect_state) ⊎ (v.client.client_state ≡ disconnect_state))
  unfolding event_machine_with refresh_keepalive_time timer_cutdown set_client_state
  on_connected code w fine =
      let w1 = refresh_keepalive_time env (set_client_state connect_state w) in
      let w2 = ack_list_scan env false w1 in
      ground (
        arith,
        ack_list_scan-Scanned env false w1 fine,
        notify_lem connected (connect_status code) w2,
      )

  pub wake-Moves : (w : World) → w.client.client_state ≡ disconnect_state → Moves w (wake env w)
  unfolding wake event_machine set_client_state
  wake-Moves w e =
      let v = notify reconnect_before no_data (set_client_state reconnect_state w) in
      let n = notify_lem reconnect_before no_data (set_client_state reconnect_state w) in
      record { kept = ground (arith, n); follows = Follows-at retries e (ground (arith, n)) }

  -- Behind the attempt to connect, whatever it did to the state.
  after_connect-Moves :
      (s : State) (w v : World) (r : Option (Error × ℕ))
      → w.client.client_state ≡ s
      → Kept w v
      → v.dangling ≡ false
      → Follows s connect_state
      → Follows s disconnect_state
      → RoundMoves w (after_connect env r v)
  after_connect-Moves s w v none e k fine up down = k
  after_connect-Moves s w v (some (err, code)) e k fine up down = elim (Bool-cases (is_ok err)) [
    | inl ok ↦
        let (kept, state) = on_connected code v fine in
        rw ok (record {
          kept = ground (arith, k, kept);
          follows = elim state [ inl c ↦ Follows-at up e c | inr d ↦ Follows-at down e d ];
        })
    | inr bad ↦
        let lost = disconnected-Settled env (connect_status code) v in
        rw bad (record {
          kept = ground (arith, k, lost);
          follows = Follows-at down e (disconnected-state env (connect_status code) v);
        })
  ]

  connecting-Moves :
      (s : State) (w : World)
      → w.client.client_state ≡ s
      → w.dangling ≡ false
      → Follows s connect_state
      → Follows s disconnect_state
      → let (r, v) = connect_broker env w in RoundMoves w (after_connect env r v)
  connecting-Moves s w e fine up down =
      let (r, v) = connect_broker env w in
      let c = connect_broker-Connects env w in
      after_connect-Moves s w v r e (ground (arith, c)) (ground (arith, c)) up down

  after_process-Moves :
      (w : World)
      → w.client.client_state ≡ connect_state
      → w.dangling ≡ false
      → let (r, v) = process_packet_handler env w in RoundMoves w (after_process env r v)
  after_process-Moves w e fine =
      let (r, v) = process_packet_handler env w in
      let b = process_packet_handler-Balanced env w in
      let s = process_packet_handler-Steady env w in
      elim (Option-cases r) [
        | inl n ↦ rw n (ground (arith, b, s))
        | inr (err, n) ↦
            let v2 = ack_list_scan env true v in
            let scanned = (ack_list_scan-Scanned env true v (ground (arith, s))).0 in
            let alive = keepalive-Settled env v2 in
            let k = Settled-trans scanned alive in
            let v3 = (keepalive env v2).1 in
            let state : (v3.client.client_state ≡ connect_state)
                ⊎ (v3.client.client_state ≡ disconnect_state) =
              ground (arith, s, k) in
            rw n (record {
              kept = ground (arith, b, s, k);
              follows = elim state [
                | inl c ↦ Follows-at stays_up e c
                | inr d ↦ Follows-at lost e d
              ];
            })
      ]

  pub thread_round-Moves :
      (w : World)
      → w.dangling ≡ false
      → w.client.destroy_flag ≡ false
      → IsStarted w.client.client_state
      → RoundMoves w (thread_round env w)
  unfolding thread_round state_round get_client_state
  thread_round-Moves w fine keeps started = simp keeps (by_state w.client.client_state refl started)
    where
      by_state :
          (s : State) → w.client.client_state ≡ s → IsStarted s → RoundMoves w (state_round env s w)
      by_state start_state e i = connecting-Moves start_state w e fine start_up start_failed
      by_state reconnect_state e i = connecting-Moves reconnect_state w e fine retry_up retry_failed
      by_state connect_state e i = after_process-Moves w e fine
      by_state disconnect_state e i = elim (Bool-cases (not w.client.config.auto_reconnect_flag)) [
        | inl manual ↦ rw manual (refl, e)
        | inr auto ↦
            let w1 = record w { trace = delayed w.client.config.reconnect_timeout ∷ w.trace } in
            let m = wake-Moves w1 e in
            rw auto (record { kept = ground (arith, m); follows = m.follows })
      ]
      by_state init_state e i = elim i [ ]
      by_state invalid_state e i = elim i [ ]
