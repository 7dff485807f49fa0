-- ===== src/Query.antt =====
-- mqttclient/RyanMqttClient.c, lines 630 to 825, 873 to 924 and 1090 to 1119: what the user can ask
-- the client for, and the event mask.
pub mod Copies
pub mod Bits
pub mod Events
pub mod GetConfig
use ryan_mqtt.Prelude.{
  Bool, List, Option, [], bit_and, bit_or, false, if◌then◌else◌, leb, length, not, none, some, suc,
  true, zero, ℕ, ◌%◌, ◌+◌, ◌-◌, ◌==◌, ◌^◌, ◌∷◌, ◌||◌,
}
use ryan_mqtt.Public.{Error, Event, State, event_id}
use ryan_mqtt.Client.{Config, MsgHandler}
use ryan_mqtt.Platform.{Env}
use ryan_mqtt.World.{M, World, free, malloc}
use ryan_mqtt.Timer.{timer_remain}
use ryan_mqtt.Session.{get_client_state}
use ryan_mqtt.Packet.{is_ok}
use ryan_mqtt.Publish.{is_null, text_of}
use ryan_mqtt.Settings.{config_deep_copy, dup_string, is_invalid}
use ryan_mqtt.Thread.{purge_config}

-- What `RyanMqttGetSubscribe` writes of a subscription.
pub record Subscribed : Type 0 where
  pub topic : List ℕ
  pub qos : ℕ

abbrev pub subscribed_of : MsgHandler → Subscribed
subscribed_of m = record { topic = m.topic; qos = m.qos }

-- The loop of `RyanMqttGetSubscribe`, with `num` entries written.
abbrev pub subscribe_loop : (size num : ℕ) → List MsgHandler → Error × List Subscribed
subscribe_loop size num [] = (Error.success, [])
subscribe_loop size num (m ∷ ms) =
    let (e, found) = subscribe_loop size (num + 1) ms in
    if leb size num then (Error.no_rescource, []) else (e, subscribed_of m ∷ found)

-- `RyanMqttGetSubscribe` with room for `size` entries: the result and the entries written.
unfoldable pub get_subscribe : ℕ → World → Error × List Subscribed
get_subscribe size w =
    if size == 0 then (Error.param_invalid, []) else subscribe_loop size 0 w.client.msg_handler_list

-- `RyanMqttGetSubscribeTotalCount`
abbrev pub count_loop : ℕ → List MsgHandler → ℕ
count_loop total [] = total
count_loop total (m ∷ ms) = count_loop (total + 1) ms

unfoldable pub get_subscribe_total_count : World → ℕ
get_subscribe_total_count w = count_loop 0 w.client.msg_handler_list

-- The loop of `RyanMqttGetSubscribeSafe`, with room for so many entries: whether it came to its end,
-- and the entries made.
unfoldable pub copy_loop : Env → ℕ → List MsgHandler → M (Bool × List MsgHandler)
copy_loop env room [] w = ((true, []), w)
copy_loop env zero (m ∷ ms) w = ((true, []), w)
copy_loop env (suc room) (m ∷ ms) w =
    let ((e, topic), w1) = dup_string env m.topic w in
    let ((done, copies), w2) = copy_loop env room ms w1 in
    if is_ok e then ((done, record m { topic = text_of topic } ∷ copies), w2) else ((false, []), w1)

unfoldable pub free_topics : List MsgHandler → World → World
free_topics [] w = w
free_topics (m ∷ ms) w = free_topics ms (free w)

-- `RyanMqttSafeFreeSubscribeResources`. A null array is `none`, and the number of its entries is the
-- array's length.
unfoldable pub safe_free_subscribe_resources : Option (List MsgHandler) → World → Error × World
unfolding free_topics
safe_free_subscribe_resources none w = (Error.param_invalid, w)
safe_free_subscribe_resources (some ms) w = (Error.success, free (free_topics ms w))

-- The part of `RyanMqttGetSubscribeSafe` where there are subscriptions.
unfoldable pub make_copies : Env → ℕ → M (Error × Option (List MsgHandler))
unfolding copy_loop safe_free_subscribe_resources
make_copies env total w =
    let (allocated, w1) = malloc env w in
    let ((done, copies), w2) = copy_loop env total w.client.msg_handler_list w1 in
    if not allocated
    then ((Error.not_enough_mem, none), w1)
    else if not done
    then ((Error.not_enough_mem, none), (safe_free_subscribe_resources (some copies) w2).1)
    else ((Error.success, some copies), w2)

-- `RyanMqttGetSubscribeSafe`: the result and `*msgHandles`, which is left alone on a failure.
unfoldable pub get_subscribe_safe : Env → M (Error × Option (List MsgHandler))
unfolding get_subscribe_total_count make_copies
get_subscribe_safe env w =
    let total = get_subscribe_total_count w in
    if total == 0 then ((Error.success, none), w) else make_copies env total w

-- `RyanMqttGetState`
abbrev pub get_state : World → State
unfolding get_client_state
get_state w = get_client_state w

-- `RyanMqttGetKeepAliveRemain`
unfoldable pub get_keep_alive_remain : Env → M ℕ
get_keep_alive_remain env w = timer_remain env w.client.keepalive_timer w

-- `RyanMqttGetConfig`: the result and `*pclientConfig`. `none` is a call that takes the length of a
-- null string. Of the three strings that must not be null, a client has all or, before
-- RyanMqttSetConfig, none.
unfoldable pub get_config : Env → World → Option ((Error × Option Config) × World)
get_config env w =
    let c = w.client.config in
    let (allocated, w1) = malloc env w in
    let ((e, copy), w2) = config_deep_copy env c w1 in
    if is_invalid (get_client_state w)
    then some ((Error.failed, none), w)
    else if not allocated
    then some ((Error.not_enough_mem, none), w1)
    else if is_null c.client_id || is_null c.host || is_null c.task_name
    then none
    else if is_ok e
    then some ((e, some copy), w2)
    else some ((e, none), free w2)

-- `RyanMqttFreeConfigFromGet`
unfoldable pub free_config_from_get : Option Config → World → Error × World
free_config_from_get none w = (Error.param_invalid, w)
free_config_from_get (some c) w = (Error.success, free (purge_config c w))

-- `RyanMqttGetEventId`
abbrev pub get_event_id : World → ℕ
get_event_id w = w.client.event_flag

-- `RyanMqttRegisterEventId`
unfoldable pub register_event_id : ℕ → World → World
register_event_id id w = record w {
  client = record w.client { event_flag = bit_or w.client.event_flag id };
}

-- `RyanMqttCancelEventId`. `~id` has the other bits of 32.
unfoldable pub cancel_event_id : ℕ → World → World
cancel_event_id id w = record w {
  client = record w.client { event_flag = bit_and w.client.event_flag (2 ^ 32 - 1 - id % 2 ^ 32) };
}
