-- ===== src/Life/Calls.antt =====
-- What every call keeps.
use ryan_mqtt.Prelude.{Option, some, arith, true, ◌∙◌, ◌≡◌, ◌⊎◌}
use ryan_mqtt.Public.{Error, disconnect_state}
use ryan_mqtt.Platform.{Env}
use ryan_mqtt.World.{Balanced, World}
use ryan_mqtt.World.Steady.{Steady}
use ryan_mqtt.Publish.Balance.{publish_with_user_data-Balanced}
use ryan_mqtt.Publish.Steady.{publish_with_user_data-Steady}
use ryan_mqtt.Subscribe.Balance.{subscribe_many-Balanced}
use ryan_mqtt.Subscribe.Steady.{subscribe_many-Steady}
use ryan_mqtt.Unsubscribe.Effect.{un_subscribe_many-Balanced}
use ryan_mqtt.Unsubscribe.Steady.{un_subscribe_many-Steady}
use ryan_mqtt.Settings.Effect.{Accounted, set_config_lem, set_lwt_lem}
use ryan_mqtt.Lifecycle.{destroy, reconnect}
use ryan_mqtt.Settings.Steady.{set_config-dangling, set_lwt-dangling}
use ryan_mqtt.Lifecycle.Effect.{discard_ack_handler_lem}
use ryan_mqtt.Lifecycle.Steady.{disconnect-Balanced, disconnect-Steady, discard_ack_handler-Steady}
use ryan_mqtt.Query.{
  cancel_event_id, free_config_from_get, get_config, get_keep_alive_remain, register_event_id,
}
use ryan_mqtt.Query.GetConfig.{get_config-kept}
use ryan_mqtt.Client.{Config}
use ryan_mqtt.Query.Copies.{get_subscribe_safe-kept}
use ryan_mqtt.Timer.{timer_remain}
use ryan_mqtt.Life.{Call, perform}

-- All blocks are accounted for, no freed one is used, and the state stays but for a lost connection.
pub record Served (w v : World) : Type 0 where
  pub accounted : Accounted w v
  pub dangling : v.dangling ≡ w.dangling
  pub state :
      (v.client.client_state ≡ w.client.client_state) ⊎ (v.client.client_state ≡ disconnect_state)

Served-of : (w v : World) → Balanced 0 w v → Steady w v → Served w v
Served-of w v b s = ground (arith, b, s)

pub perform-Served : (env : Env) (c : Call) (w : World) → Served w (perform env c w)
unfolding perform
perform-Served env (Call.publishes r) w =
    Served-of w _ (publish_with_user_data-Balanced env r w) (publish_with_user_data-Steady env r w)
perform-Served env (Call.subscribes ds) w =
    Served-of w _ (subscribe_many-Balanced env ds w) (subscribe_many-Steady env ds w)
perform-Served env (Call.unsubscribes topics) w =
    Served-of w _ (un_subscribe_many-Balanced env topics w) (un_subscribe_many-Steady env topics w)
perform-Served env (Call.configures c) w =
    ground (arith, set_config_lem env c w, set_config-dangling env c w)
perform-Served env (Call.sets_will topic payload payload_len qos retain) w = ground (
  arith,
  set_lwt_lem env topic payload payload_len qos retain w,
  set_lwt-dangling env topic payload payload_len qos retain w,
)
perform-Served env (Call.disconnects flag) w =
    Served-of w _ (disconnect-Balanced env flag w) (disconnect-Steady env flag w)
perform-Served env Call.reconnects w = unfold reconnect in ground arith
perform-Served env (Call.discards packet_type packet_id) w =
    Served-of w _ (discard_ack_handler_lem env packet_type packet_id w).1
      (discard_ack_handler-Steady env packet_type packet_id w)
perform-Served env (Call.registers id) w = unfold register_event_id in ground arith
perform-Served env (Call.cancels id) w = unfold cancel_event_id in ground arith
perform-Served env Call.asks_remain w = unfold get_keep_alive_remain timer_remain in ground arith
perform-Served env Call.lists w = ground (arith, get_subscribe_safe-kept env w)
perform-Served env Call.destroys w = unfold destroy in ground arith

-- No call takes back the mark for destruction.
pub perform-destroyed :
    (env : Env) (c : Call) (w : World)
    → w.client.destroy_flag ≡ true
    → (perform env c w).client.destroy_flag ≡ true
unfolding perform
perform-destroyed env (Call.publishes r) w d =
    (publish_with_user_data-Steady env r w).destroy_flag ∙ d
perform-destroyed env (Call.subscribes ds) w d = (subscribe_many-Steady env ds w).destroy_flag ∙ d
perform-destroyed env (Call.unsubscribes topics) w d =
    (un_subscribe_many-Steady env topics w).destroy_flag ∙ d
perform-destroyed env (Call.configures c) w d = ground (arith, set_config_lem env c w, d)
perform-destroyed env (Call.sets_will topic payload payload_len qos retain) w d =
    ground (arith, set_lwt_lem env topic payload payload_len qos retain w, d)
perform-destroyed env (Call.disconnects flag) w d = (disconnect-Steady env flag w).destroy_flag ∙ d
perform-destroyed env Call.reconnects w d = unfold reconnect in ground (arith, d)
perform-destroyed env (Call.discards packet_type packet_id) w d =
    (discard_ack_handler-Steady env packet_type packet_id w).destroy_flag ∙ d
perform-destroyed env (Call.registers id) w d = unfold register_event_id in ground (arith, d)
perform-destroyed env (Call.cancels id) w d = unfold cancel_event_id in ground (arith, d)
perform-destroyed env Call.asks_remain w d =
    unfold get_keep_alive_remain timer_remain in ground (arith, d)
perform-destroyed env Call.lists w d = ground (arith, get_subscribe_safe-kept env w, d)
perform-destroyed env Call.destroys w d = unfold destroy in ground (arith, d)

-- RyanMqttGetConfig, once its answer is freed, is as good as a call.
pub get_config-Served :
    (env : Env) (w : World) (e : Error) (copy : Option Config) (u : World)
    → get_config env w ≡ some ((e, copy), u)
    → Served w (free_config_from_get copy u).1
get_config-Served env w e copy u h = ground (arith, get_config-kept env w e copy u h)
