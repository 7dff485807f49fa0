-- ===== src/Session/Purge.antt =====
-- `RyanMqttPurgeSession` as one equation.
use ryan_mqtt.Prelude.{◌+◌, ◌≡◌, ◌∙◌, List, [], ◌∷◌, arith, length}
use ryan_mqtt.Client.{MsgHandler, AckHandler, ack_blocks, owned}
use ryan_mqtt.World.{World, free}
use ryan_mqtt.Handler.{
  msg_handler_destroy, msg_handler_remove_to_msg_list, ack_handler_destroy,
  ack_list_remove_to_ack_list, ack_list_remove_to_user_ack_list,
}
use ryan_mqtt.Session.{
  purge_msg_loop, purge_msg_list, purge_ack_loop, purge_ack_list, purge_user_ack_loop,
  purge_user_ack_list, purge_session,
}

abbrev without_msgs : World → World
without_msgs w = record w {
  client = record w.client { msg_handler_list = [] };
  frees = w.frees + length w.client.msg_handler_list;
}

abbrev without_acks : World → World
without_acks w = record w {
  client = record w.client { ack_handler_list = []; ack_handler_count = 0 };
  frees = w.frees + ack_blocks w.client.ack_handler_list;
}

abbrev without_user_acks : World → World
without_user_acks w = record w {
  client = record w.client { user_ack_handler_list = [] };
  frees = w.frees + ack_blocks w.client.user_ack_handler_list;
}

purge_msg_loop_lem :
    (ms : List MsgHandler) (w : World)
    → let v = purge_msg_loop ms w in
      record v { client = record v.client { msg_handler_list = [] } }
      ≡ record w { client = record w.client { msg_handler_list = [] }; frees = w.frees + length ms }
unfolding purge_msg_loop msg_handler_destroy free msg_handler_remove_to_msg_list
purge_msg_loop_lem [] w = ground arith
purge_msg_loop_lem (m ∷ ms) w =
    purge_msg_loop_lem ms (msg_handler_destroy m (msg_handler_remove_to_msg_list [] ms w))
    ∙ ground arith

purge_ack_loop_lem :
    (hs : List AckHandler) (w : World)
    → let v = purge_ack_loop hs w in
      record v { client = record v.client { ack_handler_list = []; ack_handler_count = 0 } }
      ≡ record w {
        client = record w.client { ack_handler_list = []; ack_handler_count = 0 };
        frees = w.frees + ack_blocks hs;
      }
unfolding purge_ack_loop ack_handler_destroy msg_handler_destroy free ack_list_remove_to_ack_list
purge_ack_loop_lem [] w = ground arith
purge_ack_loop_lem (h ∷ hs) w =
    purge_ack_loop_lem hs (ack_handler_destroy h (ack_list_remove_to_ack_list [] hs w))
    ∙ ground arith

purge_user_ack_loop_lem :
    (hs : List AckHandler) (w : World)
    → let v = purge_user_ack_loop hs w in
      record v { client = record v.client { user_ack_handler_list = [] } } ≡ record w {
        client = record w.client { user_ack_handler_list = [] };
        frees = w.frees + ack_blocks hs;
      }
unfolding purge_user_ack_loop ack_handler_destroy msg_handler_destroy free
    ack_list_remove_to_user_ack_list
purge_user_ack_loop_lem [] w = ground arith
purge_user_ack_loop_lem (h ∷ hs) w =
    purge_user_ack_loop_lem hs (ack_handler_destroy h (ack_list_remove_to_user_ack_list [] hs w))
    ∙ ground arith

purge_msg_list_lem : (w : World) → purge_msg_list w ≡ without_msgs w
unfolding purge_msg_list
purge_msg_list_lem w = purge_msg_loop_lem w.client.msg_handler_list w

purge_ack_list_lem : (w : World) → purge_ack_list w ≡ without_acks w
unfolding purge_ack_list
purge_ack_list_lem w = purge_ack_loop_lem w.client.ack_handler_list w

purge_user_ack_list_lem : (w : World) → purge_user_ack_list w ≡ without_user_acks w
unfolding purge_user_ack_list
purge_user_ack_list_lem w = purge_user_ack_loop_lem w.client.user_ack_handler_list w

-- Purging the session empties the three lists, sets the count to 0, frees exactly the blocks that
-- the session owned, and changes nothing else.
pub purge_session_lem :
    (w : World)
    → purge_session w ≡ record w {
      client = record w.client {
        msg_handler_list = [];
        ack_handler_list = [];
        user_ack_handler_list = [];
        ack_handler_count = 0;
      };
      frees = w.frees + owned w.client;
    }
unfolding purge_session
purge_session_lem w =
    rw (purge_msg_list_lem w, purge_ack_list_lem (without_msgs w))
      (purge_user_ack_list_lem (without_acks (without_msgs w)) ∙ ground arith)
