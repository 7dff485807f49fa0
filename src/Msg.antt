-- ===== src/Msg.antt =====
-- mqttclient/RyanMqttUtileMsg.c, lines 168 to 205 and 254 to 356: searching the list of
-- subscriptions.
pub mod Filter
pub mod Parted
use ryan_mqtt.Prelude.{
  ℕ, Bool, not, Option, none, some, List, [], ◌∷◌, ◌++◌, ◌==◌, if◌then◌else◌, find_at, ◌&&◌, false,
  length, strncmp_eq,
}
use ryan_mqtt.Client.{MsgHandler}
use ryan_mqtt.World.{M, World}
use ryan_mqtt.Topic.{match_topic}
use ryan_mqtt.Handler.{msg_handler_remove_to_msg_list, msg_handler_destroy}

-- `RyanMqttMsgTopicIsMatch`
unfoldable pub msg_topic_is_match : MsgHandler → List ℕ → Bool → Bool
msg_topic_is_match m topic wildcards =
    if wildcards
    then match_topic topic m.topic
    else length topic == length m.topic && strncmp_eq topic m.topic

-- `RyanMqttMsgHandlerFind`, as the place in the list that it points to; `none` is
-- RyanMqttNoRescourceError.
unfoldable pub msg_handler_find :
    List ℕ → Bool → World → Option (List MsgHandler × MsgHandler × List MsgHandler)
msg_handler_find topic wildcards w =
    find_at (λ m. msg_topic_is_match m topic wildcards) w.client.msg_handler_list

-- Is this the handler of a packet identifier (of any other one, with `skip`) and a topic?
unfoldable pub is_condemned : List ℕ → ℕ → Bool → MsgHandler → Bool
is_condemned topic packet_id skip m =
    (if skip then not (m.packet_id == packet_id) else m.packet_id == packet_id)
    && msg_topic_is_match m topic false

find_and_destroy_loop : List ℕ → ℕ → Bool → (before rest : List MsgHandler) → World → World
find_and_destroy_loop topic packet_id skip before [] w = w
find_and_destroy_loop topic packet_id skip before (m ∷ rest) w =
    let kept = find_and_destroy_loop topic packet_id skip (before ++ m ∷ []) rest w in
    let dropped =
      find_and_destroy_loop topic packet_id skip before rest
        (msg_handler_destroy m (msg_handler_remove_to_msg_list before rest w)) in
    if is_condemned topic packet_id skip m then dropped else kept

-- `RyanMqttMsgHandlerFindAndDestroyByPacketId`
pub msg_handler_find_and_destroy_by_packet_id : List ℕ → ℕ → Bool → World → World
msg_handler_find_and_destroy_by_packet_id topic packet_id skip w =
    find_and_destroy_loop topic packet_id skip [] w.client.msg_handler_list w
