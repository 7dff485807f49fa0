-- ===== src/Init.antt =====
-- mqttclient/RyanMqttClient.c, lines 10 to 106: a new client.
pub mod Effect
use ryan_mqtt.Prelude.{Bool, [], false, if◌then◌else◌, none, not, true, ℕ, ◌+◌}
use ryan_mqtt.Public.{Error, init_state}
use ryan_mqtt.Client.{Client, Config}
use ryan_mqtt.Platform.{Env}
use ryan_mqtt.World.{M, World, free, malloc}
use ryan_mqtt.Timer.{timer_init}
use ryan_mqtt.Packet.{is_ok}

-- A configuration of zero bytes.
abbrev pub zero_config : Config
zero_config = record {
  user_data = 0;
  has_event_handle = false;
  client_id = none;
  user_name = none;
  password = none;
  host = none;
  task_name = none;
  port = 0;
  ack_handler_repeat_count_warning = 0;
  ack_handler_count_warning = 0;
  recv_timeout = 0;
  send_timeout = 0;
  ack_timeout = 0;
  keepalive_timeout_s = 0;
  reconnect_timeout = 0;
  auto_reconnect_flag = false;
  clean_session_flag = false;
}

-- The client that `*pClient` points to. A timer of zero bytes is the one of `RyanMqttTimerInit`.
abbrev pub fresh_client : Client
fresh_client = record {
  config = zero_config;
  msg_handler_list = [];
  ack_handler_list = [];
  user_ack_handler_list = [];
  ack_scan_throttle_timer = timer_init;
  keepalive_timer = timer_init;
  keepalive_throttle_timer = timer_init;
  lwt_options = none;
  event_flag = 0;
  client_state = init_state;
  ack_handler_count = 0;
  packet_id = 1;
  destroy_flag = false;
  pending_ack_flag = false;
}

-- `platformCriticalInit`, `platformMutexInit` and `platformNetworkInit`
critical_init : Env → M Error
critical_init env w = (env.critical_init w.tick, record w { tick = w.tick + 1 })

mutex_init : Env → M Error
mutex_init env w = (env.mutex_init w.tick, record w { tick = w.tick + 1 })

network_init : Env → M Error
network_init env w = (env.network_init w.tick, record w { tick = w.tick + 1 })

-- The step `first`, and `next` if it succeeded.
abbrev pub and_then : M Error → M Error → M Error
and_then first next w = let (e, w1) = first w in if is_ok e then next w1 else (e, w1)

-- The locks and the network, up to the first failure. Destroying a lock is not modelled.
unfoldable pub init_parts : Env → M Error
unfolding critical_init mutex_init network_init
init_parts env = and_then (critical_init env) (
    and_then (mutex_init env) (
      and_then (mutex_init env)
        (and_then (mutex_init env) (and_then (mutex_init env) (network_init env)))))

-- `RyanMqttInit`. There is no client before the call: what the World holds in its place does not
-- count.
unfoldable pub init : Env → M Error
init env w =
    let (allocated, w1) = malloc env w in
    let (e, w2) = init_parts env w1 in
    if not allocated
    then (Error.not_enough_mem, w1)
    else if not (is_ok e)
    then (e, free w2)
    else (Error.success, record w2 { client = fresh_client })
