-- ===== src/Public.antt =====
-- mqttclient/include/RyanMqttPublic.h: the enumerations and constants of the client's interface.
-- A QoS level, a packet type and a connect status are numbers here, because the code also puts
-- bytes that it received into them; the errors, states and events are data types.
mod PacketType
pub use PacketType.*
use ryan_mqtt.Prelude.{ℕ}

abbrev pub max_packet_id : ℕ
max_packet_id = 65534

-- `RyanMqttMsgInvalidPacketId`, UINT16_MAX.
abbrev pub msg_invalid_packet_id : ℕ
msg_invalid_packet_id = 65535

abbrev pub max_payload_len : ℕ
max_payload_len = 268435455

abbrev pub qos0 : ℕ
qos0 = 0

abbrev pub qos1 : ℕ
qos1 = 1

abbrev pub qos2 : ℕ
qos2 = 2

abbrev pub sub_fail : ℕ
sub_fail = 0x80

-- `RyanMqttState_e`
pub data State : Type 0 where
  invalid_state init_state start_state connect_state disconnect_state reconnect_state : State

-- `RyanMqttEventId_e`, without the deprecated aliases and `RyanMqttEventAnyId`.
pub data Event : Type 0 where
  error_event connected disconnected subscribed subscribed_failed : Event
  un_subscribed un_subscribed_failed published repeat_publish_packet : Event
  ack_repeat_count_warning ack_count_warning ack_handler_discard : Event
  reconnect_before destroy_before received_data unsubscribed_data : Event

-- The bit of the event mask that stands for an event.
abbrev pub event_id : Event → ℕ
event_id error_event = 0x1
event_id connected = 0x2
event_id disconnected = 0x4
event_id subscribed = 0x8
event_id subscribed_failed = 0x10
event_id un_subscribed = 0x20
event_id un_subscribed_failed = 0x40
event_id published = 0x80
event_id repeat_publish_packet = 0x100
event_id ack_repeat_count_warning = 0x200
event_id ack_count_warning = 0x400
event_id ack_handler_discard = 0x800
event_id reconnect_before = 0x1000
event_id destroy_before = 0x2000
event_id received_data = 0x4000
event_id unsubscribed_data = 0x8000

-- `RyanMqttError_e`
pub data Error : Type 0 where
  param_invalid recv_packet_time_out send_packet_time_out socket_failed : Error
  socket_connect_fail send_packet_error serialize_packet deserialize_packet : Error
  no_rescource have_rescource not_connect connect_error recv_buf_to_short : Error
  send_buf_to_short not_enough_mem failed invalid_packet success : Error

-- `RyanMqttConnectStatus_e`: 0 to 5 are the server's return codes.
abbrev pub connect_accepted : ℕ
connect_accepted = 0

abbrev pub connect_client_invalid : ℕ
connect_client_invalid = 200

abbrev pub connect_net_work_fail : ℕ
connect_net_work_fail = 201

abbrev pub keepalive_timeout : ℕ
keepalive_timeout = 203

abbrev pub connect_user_disconnected : ℕ
connect_user_disconnected = 204

abbrev pub connect_first_pack_not_connack : ℕ
connect_first_pack_not_connack = 206

abbrev pub connect_invalid_packet_error : ℕ
connect_invalid_packet_error = 208

abbrev pub connect_failed_error : ℕ
connect_failed_error = 209
