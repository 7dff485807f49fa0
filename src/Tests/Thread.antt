-- ===== src/Tests/Thread.antt =====
-- Runs of the client's thread.
use ryan_mqtt.Prelude.{[], arith, false, refl, true, ◌<◌, ◌∷◌, ◌≡◌, ◌≢◌, ◌≤◌, ◌⊎◌}
use ryan_mqtt.Public.{
  Error, connect_accepted, destroy_before, disconnect_state, packet_type_connack,
  packet_type_puback, reconnect_state,
}
use ryan_mqtt.Client.{AckHandler}
use ryan_mqtt.Platform.{Env, PacketInfo, mqtt_success, negsuc}
use ryan_mqtt.World.{
  Balanced, World, client_freed, closed, free, malloc, network_destroyed, no_data, thread_destroyed,
}
use ryan_mqtt.World.Steady.{Steady}
use ryan_mqtt.Timer.{remain_at, sub32, timer_cutdown, timer_remain}
use ryan_mqtt.Event.{event_machine, refresh_keepalive_time}
use ryan_mqtt.Session.{get_client_state}
use ryan_mqtt.Network.{
  network_send, recv_loop, recv_packet, recv_round, recv_time, send_loop, send_packet, send_round,
  start_receiving, start_sending,
}
use ryan_mqtt.Incoming.{after_header, get_packet_info, read_header, read_payload}
use ryan_mqtt.Keepalive.{is_connected, keepalive}
use ryan_mqtt.Keepalive.Cases.{keepalive_cases}
use ryan_mqtt.Scan.{ack_list_scan}
use ryan_mqtt.Scan.Loop.{Scanned, ack_list_scan-Scanned}
use ryan_mqtt.Scan.Freed.{ack_list_scan-BrokenNetwork}
use ryan_mqtt.Connect.{
  after_packet, await_connack, connect_broker, exchange, network_connect, read_connack,
}
use ryan_mqtt.Connect.Balance.{connect_broker-Connects}
use ryan_mqtt.Connect.Accepted.{Answered, behind_connect, connect_broker-accepted}
use ryan_mqtt.Thread.{destroy_client}
use ryan_mqtt.Thread.Destroy.{client_blocks, destroy_client_lem}
use ryan_mqtt.Tests.{
  small-AnswersCount, small_client, small_config, small_core, small_env, small_platform,
  small_world, waits_suback,
}

keepalive_cases_example :
    let w = small_world in
    let remain = remain_at 0 w.client.keepalive_timer in
    let throttle = remain_at 1 w.client.keepalive_throttle_timer in
    let (e, v) = keepalive small_env w in
    ((remain ≡ 0) × (e ≡ Error.failed) × (v.client.client_state ≡ disconnect_state) × (v.wire ≡ []))
    ⊎ ((105 < remain)
        × ((72000 < remain) ⊎ (throttle ≢ 0))
        × (e ≡ Error.success)
        × (v ≡ record w { tick = v.tick }))
    ⊎ ((remain ≢ 0)
        × ((remain ≤ 105) ⊎ ((remain ≤ 72000) × (throttle ≡ 0)))
        × (((e ≡ Error.success) × (v.wire ≡ 192 ∷ 0 ∷ [])) ⊎ (e ≢ Error.success)))
keepalive_cases_example =
    keepalive_cases small_env small-AnswersCount (omega arith) small_world refl

ack_list_scan-Scanned_example : Scanned small_world (ack_list_scan small_env true small_world)
ack_list_scan-Scanned_example = ack_list_scan-Scanned small_env true small_world refl

-- A clock that stands, and a network that is gone.
abbrev broken_env : Env
broken_env = record {
  platform = record small_platform { uptime_ms = λ k. 0; network_send = λ k buf t. negsuc 0 };
  core = small_core;
}

abbrev unanswered_publish : AckHandler
unanswered_publish = record waits_suback { packet_type = packet_type_puback }

-- A clean session with an unanswered publish.
abbrev clean_world : World
clean_world = record small_world {
  client = record small_client {
    config = record small_config { clean_session_flag = true };
    ack_handler_list = unanswered_publish ∷ waits_suback ∷ [];
    ack_handler_count = 2;
  };
}

ack_list_scan-BrokenNetwork_example : (ack_list_scan broken_env false clean_world).dangling ≡ true
unfolding remain_at sub32
ack_list_scan-BrokenNetwork_example =
    ack_list_scan-BrokenNetwork broken_env (λ k buf t. refl) 0 (λ k. refl) unanswered_publish
      (waits_suback ∷ []) clean_world refl refl refl refl (omega arith) (omega arith) (omega arith)
      refl

-- A server that accepts the connection.
abbrev connack : PacketInfo
connack = record {
  type = packet_type_connack;
  remaining_data = 0 ∷ 0 ∷ [];
  remaining_length = 2;
  header_length = 2;
}

abbrev accepting_env : Env
accepting_env = record {
  platform = small_platform;
  core = record small_core {
    process_type_and_length = λ xs. record { status = mqtt_success; info = connack };
  };
}

abbrev offline_world : World
offline_world = record small_world {
  client = record small_client { client_state = reconnect_state };
}

connect_broker-Connects_example :
    Balanced 0 offline_world (connect_broker accepting_env offline_world).1
    × Steady offline_world (connect_broker accepting_env offline_world).1
connect_broker-Connects_example = connect_broker-Connects accepting_env offline_world

connect_broker-accepted_example :
    let v = (connect_broker accepting_env offline_world).1 in
    (is_connected reconnect_state ≡ false)
    × (0 ≡ connect_accepted)
    × Answered accepting_env
        (behind_connect accepting_env (malloc accepting_env offline_world).1)
        v.client
    × (v.wire ≡ 16 ∷ 0 ∷ [])
unfolding connect_broker exchange await_connack network_connect after_packet read_connack
    get_packet_info read_header read_payload after_header recv_packet start_receiving recv_loop
    recv_round recv_time malloc free get_client_state send_packet start_sending send_loop send_round
    network_send refresh_keepalive_time remain_at sub32 timer_cutdown timer_remain
connect_broker-accepted_example =
    connect_broker-accepted accepting_env small-AnswersCount offline_world 0 (omega arith) refl

destroy_client_lem_example :
    let v = destroy_client small_env small_world in
    (v.frees ≡ client_blocks small_client)
    × (v.mallocs ≡ 8)
    × (v.wire ≡ [])
    × (v.trace
        ≡ thread_destroyed
          ∷ client_freed 8
          ∷ network_destroyed
          ∷ closed
          ∷ (event_machine small_env destroy_before no_data small_world).trace)
destroy_client_lem_example = destroy_client_lem small_env small_world
