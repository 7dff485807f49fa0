-- ===== src/Tests.antt =====
-- Runs of the model on a small platform, with the theorems applied to them.
pub mod Thread
pub mod Calls
pub mod Life
pub mod Ring
pub mod Socket
pub mod Query
pub mod Receives
pub mod Log
pub mod Settings
pub mod Subscribe
use ryan_mqtt.Client.{AckHandler, Client, Config, MsgHandler}
use ryan_mqtt.Network.Wire.{AnswersCount, send_packet-wire}
use ryan_mqtt.World.{Balanced, World, no_data, malloc}
use ryan_mqtt.Platform.{Core, Env, PacketInfo, Platform, PublishInfo, bytes, mqtt_success, pos}
use ryan_mqtt.Public.{
  Error, connect_state, disconnect_state, disconnected, msg_invalid_packet_id, packet_type_suback,
}
use ryan_mqtt.Network.Effect.{Sends, messages, send_packet-Sends}
use ryan_mqtt.Network.Ends.{start_sending_ends}
use ryan_mqtt.Prelude.{
  List, [], arith, false, if◌then◌else◌, inl, leb, length, none, refl, take, true, ℕ, ◌%◌, ◌+◌, ◌^◌,
  ◌∷◌, ◌≡◌, ◌≢◌, ◌≤◌, ◌⊎◌,
}
use ryan_mqtt.Packet.Once.{arrivals, messages-arrivals, msg_of}
use ryan_mqtt.Ack.{clear_ack_session, awaits, ack_list_node_find}
use ryan_mqtt.Ack.Clear.{clear_ack_session_lem, cleared}
use ryan_mqtt.Event.{event_machine}
use ryan_mqtt.Event.Effect.{event_machine-disconnected}
use ryan_mqtt.PacketId.{get_next_packet_id}
use ryan_mqtt.PacketId.Cycle.{get_next_packet_id-legal, nth_id, nth_id-distinct}
use ryan_mqtt.Msg.{
  is_condemned, msg_handler_find_and_destroy_by_packet_id, msg_topic_is_match, msg_handler_find,
}
use ryan_mqtt.Msg.Parted.{Parted, msg_handler_find_and_destroy_by_packet_id-Parted}
use ryan_mqtt.Network.{send_packet, sends_on, start_sending}
use ryan_mqtt.Timer.{timer_cutdown}
use ryan_mqtt.Session.{purge_session}
use ryan_mqtt.Session.Purge.{purge_session_lem}
use ryan_mqtt.Timer.{remain_at, sub32}
use ryan_mqtt.Timer.Remain.{remain_at-wrap}
use ryan_mqtt.Suback.{suback_handler}
use ryan_mqtt.Suback.Balance.{suback_handler-Balanced}
use ryan_mqtt.Packet.{publish_packet_handler, receive_qos2, receive_first}
use ryan_mqtt.Topic.{
  match_topic, match_loop, match_round, on_equal, on_different, on_plus, skip_level,
}
use ryan_mqtt.Handler.{msg_handler_create, ack_handler_create}

abbrev pub least : ℕ → ℕ → ℕ
least m n = if leb m n then m else n

-- A platform with a clock that moves one ms at each call up to second 1, that takes two bytes at a
-- time, and that delivers as many zero bytes as are asked for.
abbrev pub small_platform : Platform
small_platform = record {
  rounds = 20;
  uptime_ms = λ k. least k 1000;
  malloc_ok = λ k. true;
  network_send = λ k buf t. pos (least 2 (length buf));
  network_recv = λ k n t. bytes (take n (0 ∷ 0 ∷ 0 ∷ []));
  network_connect = λ k host port. Error.success;
  network_init = λ k. Error.success;
  critical_init = λ k. Error.success;
  mutex_init = λ k. Error.success;
  thread_init = λ k. Error.success;
  thread_start = λ k. Error.success;
}

abbrev pub arrived_message : PublishInfo
arrived_message = record {
  qos = 2;
  retain = false;
  dup = false;
  topic_name = 97 ∷ [];
  payload = 104 ∷ 105 ∷ [];
}

abbrev pub arrived_packet : PacketInfo
arrived_packet = record { type = 52; remaining_data = []; remaining_length = 3; header_length = 2 }

-- A serializer that knows one packet of each kind, with the identifier 7.
abbrev pub small_core : Core
small_core = record {
  process_type_and_length = λ xs. record { status = mqtt_success; info = arrived_packet };
  deserialize_ack =
      λ info. record { status = mqtt_success; packet_id = 7; session_present = false };
  deserialize_publish =
      λ info. record { status = mqtt_success; packet_id = 7; publish_info = arrived_message };
  serialize_ack = λ t n. record { status = mqtt_success; buffer = t ∷ 2 ∷ 0 ∷ n ∷ [] };
  serialize_publish = λ p n. record { status = mqtt_success; buffer = p.payload };
  serialize_connect = λ c will. record { status = mqtt_success; buffer = 16 ∷ 0 ∷ [] };
  serialize_pingreq = record { status = mqtt_success; buffer = 192 ∷ 0 ∷ [] };
  serialize_disconnect = record { status = mqtt_success; buffer = 224 ∷ 0 ∷ [] };
  serialize_subscribe = λ subs n. record { status = mqtt_success; buffer = 130 ∷ n ∷ [] };
  serialize_unsubscribe = λ subs n. record { status = mqtt_success; buffer = 162 ∷ n ∷ [] };
  update_duplicate_publish_flag = λ packet. packet;
}

abbrev pub small_env : Env
small_env = record { platform = small_platform; core = small_core }

abbrev pub small_config : Config
small_config = record {
  user_data = 0;
  has_event_handle = true;
  client_id = none;
  user_name = none;
  password = none;
  host = none;
  task_name = none;
  port = 1883;
  ack_handler_repeat_count_warning = 6;
  ack_handler_count_warning = 60;
  recv_timeout = 5;
  send_timeout = 5;
  ack_timeout = 10;
  keepalive_timeout_s = 120;
  reconnect_timeout = 3000;
  auto_reconnect_flag = true;
  clean_session_flag = false;
}

abbrev pub subscription : MsgHandler
subscription = record { user_data = 0; topic = 97 ∷ []; qos = 2; packet_id = msg_invalid_packet_id }

abbrev pub asked : MsgHandler
asked = record { user_data = 0; topic = 97 ∷ []; qos = 1; packet_id = 7 }

abbrev pub waits_suback : AckHandler
waits_suback = record {
  timer = record { time = 0; time_out = 10 };
  msg_handler = asked;
  packet = 1 ∷ [];
  packet_id = 7;
  repeat_count = 0;
  packet_type = packet_type_suback;
  packet_allocated_externally = true;
}

abbrev pub small_client : Client
small_client = record {
  config = small_config;
  msg_handler_list = subscription ∷ asked ∷ [];
  ack_handler_list = waits_suback ∷ [];
  user_ack_handler_list = waits_suback ∷ [];
  ack_scan_throttle_timer = record { time = 0; time_out = 0 };
  keepalive_timer = record { time = 0; time_out = 0 };
  keepalive_throttle_timer = record { time = 0; time_out = 0 };
  lwt_options = none;
  event_flag = 65535;
  client_state = connect_state;
  ack_handler_count = 1;
  packet_id = 65533;
  destroy_flag = false;
  pending_ack_flag = false;
}

abbrev pub small_world : World
small_world = record {
  client = small_client;
  tick = 0;
  mallocs = 8;
  frees = 0;
  wire = [];
  trace = [];
  dangling = false;
}

pub small-AnswersCount : AnswersCount small_env
small-AnswersCount k buf t = inl (least 2 (length buf), refl, ground arith)

messages-arrivals_example :
    messages (arrivals small_env (arrived_packet ∷ arrived_packet ∷ []) small_world).trace
    ≡ msg_of small_env arrived_packet ∷ []
unfolding publish_packet_handler receive_qos2 receive_first match_topic match_loop match_round
    on_equal on_different on_plus skip_level awaits ack_list_node_find msg_handler_create
    ack_handler_create malloc timer_cutdown msg_handler_find msg_topic_is_match messages
messages-arrivals_example =
    messages-arrivals small_env arrived_packet (arrived_packet ∷ []) small_world refl
      (refl, λ e. ground arith) ((refl, refl), tt) refl refl refl

send_packet-wire_example :
    let (r, v) = send_packet small_env (1 ∷ 2 ∷ 3 ∷ []) small_world in
    ((r ≡ Error.success) × (v.wire ≡ 1 ∷ 2 ∷ 3 ∷ []))
    ⊎ ((r ≢ Error.success) × ((n : ℕ) × (n ≤ 3) × (v.wire ≡ take n (1 ∷ 2 ∷ 3 ∷ []))))
send_packet-wire_example =
    send_packet-wire small_env small-AnswersCount (1 ∷ 2 ∷ 3 ∷ []) (omega arith) small_world

start_sending_ends_example :
    sends_on (1 ∷ 2 ∷ 3 ∷ []) (start_sending small_env (1 ∷ 2 ∷ 3 ∷ []) small_world).0 ≡ false
unfolding timer_cutdown remain_at sub32
start_sending_ends_example =
    start_sending_ends small_env (1 ∷ 2 ∷ 3 ∷ []) small_world 10 (omega arith) refl

send_packet-Sends_example : Sends small_world (send_packet small_env (1 ∷ 2 ∷ []) small_world).1
send_packet-Sends_example = send_packet-Sends small_env (1 ∷ 2 ∷ []) small_world

clear_ack_session_lem_example :
    clear_ack_session packet_type_suback 7 small_world ≡ cleared packet_type_suback 7 small_world
clear_ack_session_lem_example = clear_ack_session_lem packet_type_suback 7 small_world

find_and_destroy_example :
    let v = msg_handler_find_and_destroy_by_packet_id (97 ∷ []) 7 true small_world in
    (gone : List MsgHandler) × Parted
      (97 ∷ [])
      7
      true
      small_world.client.msg_handler_list
      gone
      v.client.msg_handler_list
    × (v ≡ record small_world {
      client = record small_client { msg_handler_list = v.client.msg_handler_list };
      frees = small_world.frees + length gone;
    })
find_and_destroy_example =
    msg_handler_find_and_destroy_by_packet_id-Parted (97 ∷ []) ((λ e. ground (arith, e)), tt) 7 true
      small_world

suback_handler-Balanced_example :
    Balanced 0 small_world (suback_handler small_env arrived_packet small_world).1
suback_handler-Balanced_example = suback_handler-Balanced small_env arrived_packet small_world

nth_id-distinct_example : nth_id 1 small_world ≢ nth_id 3 small_world
nth_id-distinct_example =
    nth_id-distinct 1 3 small_world (omega arith, omega arith) (omega arith) (omega arith)

remain_at-wrap_example :
    remain_at ((4294967290 + 10) % 2 ^ 32) (record { time = 4294967290 % 2 ^ 32; time_out = 15 })
    ≡ 5
remain_at-wrap_example = remain_at-wrap 4294967290 10 15 (omega arith)
