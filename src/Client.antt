-- ===== src/Client.antt =====
-- mqttclient/include/RyanMqttClient.h: the client's state.
-- A topic or payload is its list of bytes, so `topicLen` and `payloadLen` are its length. A pointer
-- to user data is a number, and a NULL string is `none`. The locks, the thread and the network
-- handle are not fields: an operation that runs under a lock is one step of the model.
use ryan_mqtt.Prelude.{ℕ, ◌+◌, Bool, Option, List, [], ◌∷◌, length, if◌then◌else◌}
use ryan_mqtt.Public.{State}

pub record Timer : Type 0 where
  pub time : ℕ
  pub time_out : ℕ

pub record MsgData : Type 0 where
  pub topic : List ℕ
  pub payload : List ℕ
  pub qos : ℕ
  pub packet_id : ℕ
  pub retained : Bool
  pub dup : Bool

pub record MsgHandler : Type 0 where
  pub user_data : ℕ
  pub topic : List ℕ
  pub qos : ℕ
  pub packet_id : ℕ

pub record AckHandler : Type 0 where
  pub timer : Timer
  pub msg_handler : MsgHandler
  pub packet : List ℕ
  pub packet_id : ℕ
  pub repeat_count : ℕ
  pub packet_type : ℕ
  pub packet_allocated_externally : Bool

pub record LwtOptions : Type 0 where
  pub topic : Option (List ℕ)
  pub payload : Option (List ℕ)
  pub payload_len : ℕ
  pub qos : ℕ
  pub lwt_flag : Bool
  pub retain : Bool

pub record Config : Type 0 where
  pub user_data : ℕ
  pub has_event_handle : Bool
  pub client_id : Option (List ℕ)
  pub user_name : Option (List ℕ)
  pub password : Option (List ℕ)
  pub host : Option (List ℕ)
  pub task_name : Option (List ℕ)
  pub port : ℕ
  pub ack_handler_repeat_count_warning : ℕ
  pub ack_handler_count_warning : ℕ
  pub recv_timeout : ℕ
  pub send_timeout : ℕ
  pub ack_timeout : ℕ
  pub keepalive_timeout_s : ℕ
  pub reconnect_timeout : ℕ
  pub auto_reconnect_flag : Bool
  pub clean_session_flag : Bool

pub record Client : Type 0 where
  pub config : Config
  pub msg_handler_list : List MsgHandler
  pub ack_handler_list : List AckHandler
  pub user_ack_handler_list : List AckHandler
  pub ack_scan_throttle_timer : Timer
  pub keepalive_timer : Timer
  pub keepalive_throttle_timer : Timer
  pub lwt_options : Option LwtOptions
  pub event_flag : ℕ
  pub client_state : State
  pub ack_handler_count : ℕ
  pub packet_id : ℕ
  pub destroy_flag : Bool
  pub pending_ack_flag : Bool

-- The heap blocks that a handler owns: itself, its message handler, and a packet that was
-- allocated by the caller.
abbrev pub handler_blocks : AckHandler → ℕ
handler_blocks h = if h.packet_allocated_externally then 3 else 2

abbrev pub ack_blocks : List AckHandler → ℕ
ack_blocks [] = 0
ack_blocks (h ∷ hs) = handler_blocks h + ack_blocks hs

-- The heap blocks that the client's session owns.
abbrev pub owned : Client → ℕ
owned c =
    length c.msg_handler_list + ack_blocks c.ack_handler_list + ack_blocks c.user_ack_handler_list
