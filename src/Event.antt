-- ===== src/Event.antt =====
-- mqttclient/RyanMqttThread.c, lines 12 to 18 and 405 to 454: the event machine.
pub mod Effect
use ryan_mqtt.Prelude.{◌*◌, ◌∷◌, not, ◌&&◌, ◌==◌, bit_and, if◌then◌else◌}
use ryan_mqtt.Public.{
  Event, event_id, connected, disconnected, reconnect_before, connect_state, disconnect_state,
  reconnect_state,
}
use ryan_mqtt.Platform.{Env}
use ryan_mqtt.World.{World, EventData, called, closed}
use ryan_mqtt.Timer.{timer_cutdown}
use ryan_mqtt.Session.{set_client_state, purge_session}

-- `RyanMqttRefreshKeepaliveTime`: one and a half times the interval, in ms.
unfoldable pub refresh_keepalive_time : Env → World → World
unfolding timer_cutdown
refresh_keepalive_time env w =
    let (timer, v) = timer_cutdown env (w.client.config.keepalive_timeout_s * 1500) w in
    record v { client = record v.client { keepalive_timer = timer } }

-- `platformNetworkClose`
unfoldable pub network_close : World → World
network_close w = record w { trace = closed ∷ w.trace }

-- The end of `RyanMqttEventMachine`: the user's callback, if there is one and it asked for the event.
-- Only the call is recorded: a callback that itself makes calls of the client is not modelled here.
unfoldable pub notify : Event → EventData → World → World
notify e d w =
    if w.client.config.has_event_handle && not (bit_and w.client.event_flag (event_id e) == 0)
    then record w { trace = called e d ∷ w.trace }
    else w

pub on_disconnected : World → World
unfolding set_client_state network_close
on_disconnected w =
    let v = network_close (set_client_state disconnect_state w) in
    if v.client.config.clean_session_flag then purge_session v else v

-- `RyanMqttEventMachine`. `scan` is the call of `RyanMqttAckListScan` in the case of
-- RyanMqttEventConnected, which only the client's thread raises.
unfoldable pub event_machine_with : Env → (World → World) → Event → EventData → World → World
unfolding on_disconnected notify set_client_state refresh_keepalive_time
event_machine_with env scan connected d w =
    notify connected d (scan (refresh_keepalive_time env (set_client_state connect_state w)))
event_machine_with env scan disconnected d w = notify disconnected d (on_disconnected w)
event_machine_with env scan reconnect_before d w =
    notify reconnect_before d (set_client_state reconnect_state w)
event_machine_with env scan e d w = notify e d w

-- The event machine where it is called with any other event.
unfoldable pub event_machine : Env → Event → EventData → World → World
unfolding event_machine_with
event_machine env = event_machine_with env (λ w. w)
