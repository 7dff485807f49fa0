-- ===== src/Thread.antt =====
-- mqttclient/RyanMqttThread.c, lines 456 to 572, and mqttclient/RyanMqttUtil.c, lines 271 to 299: the
-- loop of the client's thread, and the end of the client.
pub mod Destroy
pub mod Ends
pub mod Balance
use ryan_mqtt.Prelude.{List, Option, false, if◌then◌else◌, none, not, true, some, ℕ, ◌∷◌}
use ryan_mqtt.Public.{
  Error, State, connect_state, connected, destroy_before, disconnect_state, disconnected,
  init_state, invalid_state, reconnect_before, reconnect_state, start_state,
}
use ryan_mqtt.Client.{Config, LwtOptions}
use ryan_mqtt.Platform.{Env}
use ryan_mqtt.World.{
  World, client_freed, connect_status, delayed, free, network_destroyed, no_data, thread_destroyed,
  thread_stopped,
}
use ryan_mqtt.Session.{get_client_state, purge_session}
use ryan_mqtt.Event.{event_machine, event_machine_with, network_close}
use ryan_mqtt.Packet.{is_ok}
use ryan_mqtt.Incoming.{process_packet_handler}
use ryan_mqtt.Keepalive.{keepalive}
use ryan_mqtt.Scan.{ack_list_scan}
use ryan_mqtt.Connect.{connect_broker}

-- `if (NULL != s) platformMemoryFree(s)`
abbrev pub free_string : Option (List ℕ) → World → World
free_string none w = w
free_string (some xs) w = free w

-- `RyanMqttPurgeConfig`
unfoldable pub purge_config : Config → World → World
purge_config c w = free_string c.task_name (
    free_string c.host
      (free_string c.password (free_string c.user_name (free_string c.client_id w))))

abbrev pub free_lwt : Option LwtOptions → World → World
free_lwt none w = w
free_lwt (some o) w = free (free_string o.topic (free_string o.payload w))

-- The case of the loop where `destroyFlag` is set. The locks are not modelled.
unfoldable pub destroy_client : Env → World → World
unfolding purge_config network_close
destroy_client env w =
    let w1 = network_close (event_machine env destroy_before no_data w) in
    let w2 = record w1 { trace = network_destroyed ∷ w1.trace } in
    let w3 = free_lwt w2.client.lwt_options (purge_config w2.client.config w2) in
    let w4 = purge_session w3 in
    let w5 = free (record w4 { trace = client_freed w4.frees ∷ w4.trace }) in
    record w5 { trace = thread_destroyed ∷ w5.trace }

-- How a round of the loop ends: with the next round; asleep in `platformThreadStop`, until the user
-- reconnects; with the end of the thread; or with a write behind a buffer, as in Incoming.
pub data Round : Type 0 where
  goes_on : World → Round
  sleeps : World → Round
  ends : World → Round
  overran : World → Round

-- The first case of the `switch`, behind `RyanMqttConnectBroker`.
abbrev pub after_connect : Env → Option (Error × ℕ) → World → Round
after_connect env none w = overran w
after_connect env (some (e, code)) w =
    if is_ok e
    then goes_on
        (event_machine_with env (ack_list_scan env false) connected (connect_status code) w)
    else goes_on (event_machine env disconnected (connect_status code) w)

-- The second one, behind `RyanMqttProcessPacketHandler`.
abbrev pub after_process : Env → Option Error → World → Round
after_process env none w = overran w
after_process env (some e) w = goes_on (keepalive env (ack_list_scan env true w)).1

-- What follows `platformThreadStop` when the thread is started again.
unfoldable pub wake : Env → World → World
wake env w = event_machine env reconnect_before no_data w

-- The `switch`. In any other state only an assertion trips, which is off in a release.
unfoldable pub state_round : Env → State → World → Round
unfolding wake
state_round env start_state w = let (r, v) = connect_broker env w in after_connect env r v
state_round env reconnect_state w = let (r, v) = connect_broker env w in after_connect env r v
state_round env connect_state w = let (r, v) = process_packet_handler env w in after_process env r v
state_round env disconnect_state w =
    if not w.client.config.auto_reconnect_flag
    then sleeps (record w { trace = thread_stopped ∷ w.trace })
    else goes_on
        (wake env (record w { trace = delayed w.client.config.reconnect_timeout ∷ w.trace }))
state_round env init_state w = goes_on w
state_round env invalid_state w = goes_on w

-- One round of the loop of `RyanMqttThread`.
unfoldable pub thread_round : Env → World → Round
unfolding get_client_state
thread_round env w =
    if w.client.destroy_flag
    then ends (destroy_client env w)
    else state_round env (get_client_state w) w
