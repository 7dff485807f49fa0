-- ===== src/Settings.antt =====
-- mqttclient/RyanMqttClient.c, lines 827 to 871 and 926 to 1064, and RyanMqttDupString of
-- mqttclient/RyanMqttUtil.c: the configuration and the will.
pub mod Copy
pub mod Effect
pub mod Steady
use ryan_mqtt.Prelude.{
  Bool, List, Option, [], false, if◌then◌else◌, leb, length, ltb, none, not, some, take, true, ℕ,
  ◌&&◌, ◌*◌, ◌/◌, ◌==◌, ◌||◌,
}
use ryan_mqtt.Public.{Error, invalid_state, max_payload_len, qos2, State}
use ryan_mqtt.Client.{Config, LwtOptions}
use ryan_mqtt.Platform.{Env}
use ryan_mqtt.World.{M, World, free, malloc}
use ryan_mqtt.Session.{get_client_state}
use ryan_mqtt.Packet.{is_ok}
use ryan_mqtt.Keepalive.{is_connected}
use ryan_mqtt.Publish.{is_null, text_of}
use ryan_mqtt.Thread.{free_string, purge_config}

-- `RyanMqttDupString`: the result and `*dest`, which is null before the call.
unfoldable pub dup_string : Env → List ℕ → M (Error × Option (List ℕ))
dup_string env s w =
    let (allocated, w1) = malloc env w in
    if length s == 0
    then ((Error.failed, none), w)
    else if not allocated
    then ((Error.not_enough_mem, none), w1)
    else ((Error.success, some s), w1)

-- The same of a pointer that may be null.
unfoldable pub dup_optional : Env → Option (List ℕ) → M (Error × Option (List ℕ))
dup_optional env none w = ((Error.success, none), w)
dup_optional env (some s) w = dup_string env s w

-- `RyanMqttClientConfigDeepCopy`: the result and `*destConfig`. The client identifier, the host and
-- the task name of the source are not null.
unfoldable pub config_deep_copy : Env → Config → M (Error × Config)
config_deep_copy env src w =
    let c0 : Config = record src {
      client_id = none;
      user_name = none;
      password = none;
      host = none;
      task_name = none;
    } in
    let ((e1, id), w1) = dup_optional env src.client_id w in
    let c1 : Config = record c0 { client_id = id } in
    let ((e2, user), w2) = dup_optional env src.user_name w1 in
    let c2 : Config = record c1 { user_name = user } in
    let ((e3, password), w3) = dup_optional env src.password w2 in
    let c3 : Config = record c2 { password = password } in
    let ((e4, host), w4) = dup_optional env src.host w3 in
    let c4 : Config = record c3 { host = host } in
    let ((e5, task), w5) = dup_optional env src.task_name w4 in
    let c5 : Config = record c4 { task_name = task } in
    if not (is_ok e1)
    then ((e1, c1), purge_config c1 w1)
    else if not (is_ok e2)
    then ((e2, c2), purge_config c2 w2)
    else if not (is_ok e3)
    then ((e3, c3), purge_config c3 w3)
    else if not (is_ok e4)
    then ((e4, c4), purge_config c4 w4)
    else if not (is_ok e5)
    then ((e5, c5), purge_config c5 w5)
    else ((Error.success, c5), w5)

abbrev pub is_invalid : State → Bool
is_invalid state = elim state [ invalid_state ↦ true | _ ↦ false ]

-- The checks of the parameters, apart from the client's.
abbrev pub is_valid_config : Config → Bool
is_valid_config c =
    not (is_null c.client_id)
    && not (is_null c.host)
    && not (is_null c.task_name)
    && leb c.recv_timeout (c.keepalive_timeout_s * 1000 / 2)
    && leb c.send_timeout c.recv_timeout

-- `RyanMqttSetConfig`
unfoldable pub set_config : Env → Config → M Error
set_config env config w =
    let ((e, copy), w1) = config_deep_copy env config w in
    let w2 = purge_config w1.client.config w1 in
    if is_invalid (get_client_state w)
    then (Error.failed, w)
    else if not (is_valid_config config)
    then (Error.param_invalid, w)
    else if is_ok e
    then (e, record w2 { client = record w2.client { config = copy } })
    else (e, w1)

abbrev pub put_will : Option LwtOptions → World → World
put_will o w = record w { client = record w.client { lwt_options = o } }

-- The will with no string in it.
abbrev pub empty_will : LwtOptions
empty_will = record {
  topic = none;
  payload = none;
  payload_len = 0;
  qos = 0;
  lwt_flag = false;
  retain = false;
}

-- The part at `__exit`, with the strings copied so far.
unfoldable pub drop_will : (topic payload : Option (List ℕ)) → World → World
drop_will topic payload w = put_will none (free (free_string payload (free_string topic w)))

-- What the will holds of a payload of that length: `payloadLen` bytes, if there are any.
abbrev pub will_payload : Option (List ℕ) → ℕ → Option (List ℕ)
will_payload payload payload_len =
    if ltb 0 payload_len then some (take payload_len (text_of payload)) else none

-- From the copies on: the will is there and empty.
unfoldable pub fill_will : Env → List ℕ → Option (List ℕ) → ℕ → ℕ → Bool → M Error
fill_will env topic payload payload_len qos retain w =
    let ((e1, p), w1) = dup_optional env (will_payload payload payload_len) w in
    let ((e2, t), w2) = dup_string env topic w1 in
    if not (is_ok e1)
    then (e1, drop_will none p w1)
    else if not (is_ok e2)
    then (e2, drop_will t p w2)
    else (
      Error.success,
      put_will
          (some (record {
            topic = t;
            payload = p;
            payload_len = payload_len;
            qos = qos;
            lwt_flag = true;
            retain = retain;
          }))
          w2,
    )

-- An earlier will loses its strings, or a block is made for the first one.
unfoldable pub open_will : Env → M Bool
open_will env w = elim w.client.lwt_options [
  | none ↦ malloc env w
  | some o ↦ (true, free_string o.payload (free_string o.topic w))
]

-- `RyanMqttSetLwt`, with the topic up to its end; the payload has `payload_len` bytes or more.
unfoldable pub set_lwt : Env → Option (List ℕ) → Option (List ℕ) → ℕ → ℕ → Bool → M Error
set_lwt env topic payload payload_len qos retain w =
    let (opened, w1) = open_will env w in
    if is_null topic
    then (Error.param_invalid, w)
    else if is_connected (get_client_state w)
    then (Error.failed, w)
    else if not (leb payload_len max_payload_len) || not (leb qos qos2)
    then (Error.param_invalid, w)
    else if ltb 0 payload_len && is_null payload
    then (Error.param_invalid, w)
    else if not opened
    then (Error.not_enough_mem, w1)
    else fill_will env (text_of topic) payload payload_len qos retain
        (put_will (some empty_will) w1)
