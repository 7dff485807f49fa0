-- ===== src/Session.antt =====
-- mqttclient/RyanMqttUtil.c, lines 196 to 269: the client's state variable, and clearing the
-- session.
pub mod Purge
use ryan_mqtt.Prelude.{List, [], ◌∷◌}
use ryan_mqtt.Public.{State}
use ryan_mqtt.Client.{MsgHandler, AckHandler}
use ryan_mqtt.World.{World}
use ryan_mqtt.Handler.{
  msg_handler_destroy, msg_handler_remove_to_msg_list, ack_handler_destroy,
  ack_list_remove_to_ack_list, ack_list_remove_to_user_ack_list,
}

-- `RyanMqttSetClientState`
unfoldable pub set_client_state : State → World → World
set_client_state state w = record w { client = record w.client { client_state = state } }

-- `RyanMqttGetClientState`
unfoldable pub get_client_state : World → State
get_client_state w = w.client.client_state

-- The three parts of `RyanMqttPurgeSession`, each with its loop. A loop removes the node that it
-- stands at, so no node is before it.
purge_msg_loop : List MsgHandler → World → World
purge_msg_loop [] w = w
purge_msg_loop (m ∷ rest) w =
    purge_msg_loop rest (msg_handler_destroy m (msg_handler_remove_to_msg_list [] rest w))

purge_msg_list : World → World
purge_msg_list w =
    let v = purge_msg_loop w.client.msg_handler_list w in
    record v { client = record v.client { msg_handler_list = [] } }

purge_ack_loop : List AckHandler → World → World
purge_ack_loop [] w = w
purge_ack_loop (h ∷ rest) w =
    purge_ack_loop rest (ack_handler_destroy h (ack_list_remove_to_ack_list [] rest w))

purge_ack_list : World → World
purge_ack_list w =
    let v = purge_ack_loop w.client.ack_handler_list w in
    record v { client = record v.client { ack_handler_list = []; ack_handler_count = 0 } }

purge_user_ack_loop : List AckHandler → World → World
purge_user_ack_loop [] w = w
purge_user_ack_loop (h ∷ rest) w =
    purge_user_ack_loop rest (ack_handler_destroy h (ack_list_remove_to_user_ack_list [] rest w))

purge_user_ack_list : World → World
purge_user_ack_list w =
    let v = purge_user_ack_loop w.client.user_ack_handler_list w in
    record v { client = record v.client { user_ack_handler_list = [] } }

-- `RyanMqttPurgeSession`
pub purge_session : World → World
purge_session w = purge_user_ack_list (purge_ack_list (purge_msg_list w))
