-- ===== src/Handler.antt =====
-- The life of a handler: mqttclient/RyanMqttUtileMsg.c, lines 207 to 252 and 358 to 394, and
-- mqttclient/RyanMqttUtileAck.c, lines 8 to 94, 169 to 190 and 237 to 259.
-- A loop that may remove the node it stands at knows the nodes before it and after it; so do the
-- `remove` functions here, in place of a pointer to the node.
pub mod Balance
pub mod Create
use ryan_mqtt.Prelude.{
  ℕ, ◌+◌, ◌-◌, ◌%◌, ◌^◌, Bool, true, false, Option, none, some, List, [], ◌∷◌, ◌++◌, ltb,
  if◌then◌else◌, length, take,
}
use ryan_mqtt.Client.{MsgHandler, AckHandler}
use ryan_mqtt.Platform.{Env}
use ryan_mqtt.World.{World, M, pure, gets, ◌>>=◌, malloc, free}
use ryan_mqtt.Timer.{timer_cutdown}

-- `RyanMqttMsgHandlerCreate`; `none` is RyanMqttNotEnoughMemError.
unfoldable pub msg_handler_create : Env → List ℕ → ℕ → ℕ → ℕ → M (Option MsgHandler)
msg_handler_create env topic packet_id qos user_data = do
  allocated ← malloc env
  if allocated
      then pure
          (some (record { user_data = user_data; topic = topic; qos = qos; packet_id = packet_id }))
      else pure none

-- `RyanMqttMsgHandlerDestroy`
unfoldable pub msg_handler_destroy : MsgHandler → World → World
msg_handler_destroy m w = free w

-- `RyanMqttMsgHandlerAddToMsgList`
unfoldable pub msg_handler_add_to_msg_list : MsgHandler → World → World
msg_handler_add_to_msg_list m w = record w {
  client = record w.client { msg_handler_list = w.client.msg_handler_list ++ m ∷ [] };
}

-- `RyanMqttMsgHandlerRemoveToMsgList`
unfoldable pub msg_handler_remove_to_msg_list : (before after : List MsgHandler) → World → World
msg_handler_remove_to_msg_list before after w = record w {
  client = record w.client { msg_handler_list = before ++ after };
}

-- `RyanMqttAckHandlerCreate`; `none` is RyanMqttNotEnoughMemError. Without external allocation the
-- packet is copied behind the handler, into the same block. The parameter `packetLen` is a
-- `uint16_t`, so of a longer packet only a first part is ever read.
unfoldable pub ack_handler_create : Env → ℕ → ℕ → List ℕ → MsgHandler → Bool → M (Option AckHandler)
ack_handler_create env packet_type packet_id packet msg_handler external = do
  allocated ← malloc env
  if allocated
      then (do
        timeout ← gets (λ w. w.client.config.ack_timeout)
        timer ← timer_cutdown env timeout
        pure (
            some (record {
              timer = timer;
              msg_handler = msg_handler;
              packet = take (length packet % 2 ^ 16) packet;
              packet_id = packet_id;
              repeat_count = 0;
              packet_type = packet_type;
              packet_allocated_externally = external;
            })))
      else pure none

-- `RyanMqttAckHandlerDestroy`
unfoldable pub ack_handler_destroy : AckHandler → World → World
ack_handler_destroy h w =
    let v = msg_handler_destroy h.msg_handler w in
    free (if h.packet_allocated_externally then free v else v)

-- `RyanMqttAckListRemoveToAckList`
unfoldable pub ack_list_remove_to_ack_list : (before after : List AckHandler) → World → World
ack_list_remove_to_ack_list before after w = record w {
  client = record w.client {
    ack_handler_list = before ++ after;
    ack_handler_count =
        if ltb 0 w.client.ack_handler_count
        then w.client.ack_handler_count - 1
        else w.client.ack_handler_count;
  };
}

-- `RyanMqttAckListAddToUserAckList`
unfoldable pub ack_list_add_to_user_ack_list : AckHandler → World → World
ack_list_add_to_user_ack_list h w = record w {
  client = record w.client { user_ack_handler_list = w.client.user_ack_handler_list ++ h ∷ [] };
}

-- `RyanMqttAckListRemoveToUserAckList`
unfoldable pub ack_list_remove_to_user_ack_list : (before after : List AckHandler) → World → World
ack_list_remove_to_user_ack_list before after w = record w {
  client = record w.client { user_ack_handler_list = before ++ after };
}
