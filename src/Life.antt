-- ===== src/Life.antt =====
-- The life of a client, from RyanMqttInit to the end of its thread: rounds of RyanMqttThread in
-- mqttclient/RyanMqttThread.c, and between them the calls of mqttclient/RyanMqttClient.c. A call and
-- a round each count as one step. RyanMqttEventReconnectBefore is the last thing that happens in its
-- round, so a RyanMqttSetConfig or another call from that callback is a step behind the round.
-- A call from any other callback, which the code goes on after, is no step.
pub mod Calls
pub mod Owns
pub mod Ends
use ryan_mqtt.Prelude.{Bool, List, Option, some, [], ◌∷◌, false, ℕ, ◌≡◌, ◌≢◌}
use ryan_mqtt.Public.{Error}
use ryan_mqtt.Client.{Config}
use ryan_mqtt.Platform.{Env}
use ryan_mqtt.World.{World}
use ryan_mqtt.Publish.{PublishRequest, publish_with_user_data}
use ryan_mqtt.Subscribe.{SubscribeData, subscribe_many}
use ryan_mqtt.Unsubscribe.{un_subscribe_many}
use ryan_mqtt.Settings.{set_config, set_lwt}
use ryan_mqtt.Lifecycle.{destroy, discard_ack_handler, disconnect, reconnect, start}
use ryan_mqtt.Init.{init}
use ryan_mqtt.Query.{
  cancel_event_id, get_keep_alive_remain, get_subscribe_safe, register_event_id,
  free_config_from_get, get_config, safe_free_subscribe_resources,
}
use ryan_mqtt.Thread.{Round, goes_on, sleeps, thread_round, wake}

-- A call of the user's, with its arguments. `lists` asks for the subscriptions and frees the answer.
-- The calls that only read the client are left out; RyanMqttGetConfig is a step of its own.
pub data Call : Type 0 where
  publishes : PublishRequest → Call
  subscribes : List SubscribeData → Call
  unsubscribes : List (Option (List ℕ)) → Call
  configures : Config → Call
  sets_will : Option (List ℕ) → Option (List ℕ) → ℕ → ℕ → Bool → Call
  disconnects : Bool → Call
  reconnects : Call
  discards : (packet_type packet_id : ℕ) → Call
  registers : ℕ → Call
  cancels : ℕ → Call
  asks_remain : Call
  lists : Call
  destroys : Call

-- What a call leaves behind.
unfoldable pub perform : Env → Call → World → World
perform env (Call.publishes r) w = (publish_with_user_data env r w).1
perform env (Call.subscribes ds) w = (subscribe_many env ds w).1
perform env (Call.unsubscribes topics) w = (un_subscribe_many env topics w).1
perform env (Call.configures c) w = (set_config env c w).1
perform env (Call.sets_will topic payload payload_len qos retain) w =
    (set_lwt env topic payload payload_len qos retain w).1
perform env (Call.disconnects flag) w = (disconnect env flag w).1
perform env Call.reconnects w = (reconnect env w).1
perform env (Call.discards packet_type packet_id) w =
    (discard_ack_handler env packet_type packet_id w).1
perform env (Call.registers id) w = register_event_id id w
perform env (Call.cancels id) w = cancel_event_id id w
perform env Call.asks_remain w = (get_keep_alive_remain env w).1
perform env Call.lists w =
    let ((e, found), v) = get_subscribe_safe env w in (safe_free_subscribe_resources found v).1
perform env Call.destroys w = (destroy w).1

-- Some calls, one after the other.
unfoldable pub performs : Env → List Call → World → World
unfolding perform
performs env [] w = w
performs env (c ∷ cs) w = performs env cs (perform env c w)

-- The client's thread: not started, running, or stopped by `platformThreadStop`.
pub data Phase : Type 0 where
  idle running asleep : Phase

-- A call; RyanMqttGetConfig that touches no null string, with what frees its answer; the start, which runs the thread or fails; a round that goes on; one that falls asleep;
-- and the reconnection that wakes the thread. A round is a step only if it used no freed block.
pub data Step (env : Env) (p : Phase) (w : World) (q : Phase) (v : World) : Type 0 where
  calls : (c : Call) → q ≡ p → v ≡ perform env c w → Step env p w q v
  reads_config :
      (e : Error) (copy : Option Config) (u : World)
      → q ≡ p
      → get_config env w ≡ some ((e, copy), u)
      → v ≡ (free_config_from_get copy u).1
      → Step env p w q v
  starts : p ≡ idle → start env w ≡ (Error.success, v) → q ≡ running → Step env p w q v
  fails : (e : Error) → e ≢ Error.success → start env w ≡ (e, v) → q ≡ p → Step env p w q v
  rounds :
      p ≡ running
      → thread_round env w ≡ goes_on v
      → v.dangling ≡ false
      → q ≡ running
      → Step env p w q v
  stops : p ≡ running → thread_round env w ≡ sleeps v → q ≡ asleep → Step env p w q v
  wakes :
      (u : World)
      → p ≡ asleep
      → reconnect env w ≡ (Error.success, u)
      → v ≡ wake env u
      → q ≡ running
      → Step env p w q v

-- The states that a client comes to from a heap on which nothing of it is left.
pub data Lives (env : Env) : Phase → World → Type 0 where
  born :
      {p : Phase} {v : World} (w : World)
      → p ≡ idle
      → w.mallocs ≡ w.frees
      → w.dangling ≡ false
      → init env w ≡ (Error.success, v)
      → Lives env p v
  next : {p q : Phase} {w v : World} → Lives env p w → Step env p w q v → Lives env q v
