-- ===== src/Event/Effect.antt =====
-- What the event machine changes.
use ryan_mqtt.Prelude.{◌+◌, ◌≡◌, [], ◌∷◌, arith, if◌then◌else◌}
use ryan_mqtt.Public.{Event, disconnected, disconnect_state}
use ryan_mqtt.Client.{owned}
use ryan_mqtt.Platform.{Env}
use ryan_mqtt.World.{World, EventData, closed, Balanced}
use ryan_mqtt.Session.{set_client_state}
use ryan_mqtt.Session.Purge.{purge_session_lem}
use ryan_mqtt.Event.{notify, on_disconnected, event_machine, network_close}

-- The user's callback is logged and nothing else happens.
pub notify_lem :
    (e : Event) (d : EventData) (w : World)
    → notify e d w ≡ record w { trace = (notify e d w).trace }
unfolding notify
notify_lem e d w = ground arith

-- The disconnected event: the state, the closed network, and with a clean session the whole
-- session freed.
pub on_disconnected_lem :
    (w : World)
    → on_disconnected w ≡ (
        if w.client.config.clean_session_flag
        then record w {
          client = record w.client {
            client_state = disconnect_state;
            msg_handler_list = [];
            ack_handler_list = [];
            user_ack_handler_list = [];
            ack_handler_count = 0;
          };
          frees = w.frees + owned w.client;
          trace = closed ∷ w.trace;
        }
        else record w {
          client = record w.client { client_state = disconnect_state };
          trace = closed ∷ w.trace;
        })
unfolding on_disconnected set_client_state network_close
on_disconnected_lem w =
    ground (arith, purge_session_lem (network_close (set_client_state disconnect_state w)))

-- After a disconnected event the client is in the disconnected state, the network was closed, no
-- byte was sent, the client kept its settings and identifiers, no block was lost, and with a clean
-- session nothing is left of the session.
pub event_machine-disconnected :
    (env : Env) (d : EventData) (w : World)
    → let v = event_machine env disconnected d w in
      (v.client.client_state ≡ disconnect_state)
      × (v.wire ≡ w.wire)
      × (v.client.config ≡ w.client.config)
      × (v.client.packet_id ≡ w.client.packet_id)
      × Balanced 0 w v
unfolding event_machine
event_machine-disconnected env d w =
    ground (arith, on_disconnected_lem w, notify_lem disconnected d (on_disconnected w))
