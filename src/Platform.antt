-- ===== src/Platform.antt =====
-- The interfaces that the client is written against: mqttclient/include/RyanMqttPlatform.h (the
-- operating system) and coreMqtt (the packet serializer). Both are parameters of the model.
use ryan_mqtt.Prelude.{ℕ, Bool, List, Option}
use ryan_mqtt.Public.{Error}

-- `int32_t`; `negsuc n` is -(n + 1).
pub data ℤ : Type 0 where
  pos : ℕ → ℤ
  negsuc : ℕ → ℤ

-- What `platformNetworkRecvAsync` answers: some bytes, none of them on a time-out, or an error.
pub data Received : Type 0 where
  bytes : List ℕ → Received
  recv_failed : Received

-- The first argument of each function numbers the call, so two calls may answer differently. `rounds`
-- is no function of the platform: the model follows a loop over the network for that many rounds
-- and one more, and it is as large as one likes.
pub record Platform : Type 0 where
  pub rounds : ℕ
  pub uptime_ms : ℕ → ℕ
  pub malloc_ok : ℕ → Bool
  pub network_send : ℕ → List ℕ → ℕ → ℤ
  pub network_recv : ℕ → ℕ → ℕ → Received
  pub network_connect : ℕ → Option (List ℕ) → ℕ → Error
  pub network_init : ℕ → Error
  pub critical_init : ℕ → Error
  pub mutex_init : ℕ → Error
  pub thread_init : ℕ → Error
  pub thread_start : ℕ → Error

pub data Status : Type 0 where
  mqtt_success mqtt_server_refused mqtt_need_more_bytes mqtt_other : Status

pub record PacketInfo : Type 0 where
  pub type : ℕ
  pub remaining_data : List ℕ
  pub remaining_length : ℕ
  pub header_length : ℕ

pub record PublishInfo : Type 0 where
  pub qos : ℕ
  pub retain : Bool
  pub dup : Bool
  pub topic_name : List ℕ
  pub payload : List ℕ

pub record ConnectInfo : Type 0 where
  pub client_identifier : Option (List ℕ)
  pub user_name : Option (List ℕ)
  pub password : Option (List ℕ)
  pub keep_alive_seconds : ℕ
  pub clean_session : Bool

pub record SubscribeInfo : Type 0 where
  pub qos : ℕ
  pub topic_filter : List ℕ

-- The calls of coreMqtt: the status, and what is written through the pointers. The first is
-- `MQTT_ProcessIncomingPacketTypeAndLength` on the bytes read so far. A `serialize` call stands for
-- the call that computes the packet's size too, and `buffer` has that size.
pub record Core : Type 0 where
  pub process_type_and_length : List ℕ → record { status : Status; info : PacketInfo }
  pub deserialize_ack :
      PacketInfo → record { status : Status; packet_id : ℕ; session_present : Bool }
  pub deserialize_publish :
      PacketInfo → record { status : Status; packet_id : ℕ; publish_info : PublishInfo }
  pub serialize_ack : ℕ → ℕ → record { status : Status; buffer : List ℕ }
  pub serialize_publish : PublishInfo → ℕ → record { status : Status; buffer : List ℕ }
  pub serialize_connect :
      ConnectInfo → Option PublishInfo → record { status : Status; buffer : List ℕ }
  pub serialize_pingreq : record { status : Status; buffer : List ℕ }
  pub serialize_disconnect : record { status : Status; buffer : List ℕ }
  pub serialize_subscribe : List SubscribeInfo → ℕ → record { status : Status; buffer : List ℕ }
  pub serialize_unsubscribe : List SubscribeInfo → ℕ → record { status : Status; buffer : List ℕ }
  pub update_duplicate_publish_flag : List ℕ → List ℕ

pub record Env : Type 0 where
  pub platform : Platform
  pub open platform use *
  pub core : Core
  pub open core use *
