-- ===== src/Tests/Calls.antt =====
-- Runs of the user's calls and of the topic matcher.
use ryan_mqtt.Prelude.{[], false, refl, some, true, ◌∷◌, ◌≡◌, ◌≢◌, ◌⊎◌, ◌==◌, ◌&&◌, arith}
use ryan_mqtt.Public.{connect_state, qos0}
use ryan_mqtt.World.{malloc, free}
use ryan_mqtt.PacketId.{get_next_packet_id, next_id}
use ryan_mqtt.Event.{refresh_keepalive_time}
use ryan_mqtt.Handler.{ack_handler_create, ack_list_add_to_user_ack_list, msg_handler_create}
use ryan_mqtt.Network.{network_send, send_loop, send_packet, send_round, start_sending}
use ryan_mqtt.Timer.{remain_at, sub32, timer_cutdown, timer_remain}
use ryan_mqtt.Session.{get_client_state}
use ryan_mqtt.Publish.{
  publish_packet, send_until_acked, send_awaited, PublishRequest, is_valid_request,
  publish_with_user_data,
}
use ryan_mqtt.Publish.Effect.{Waits, publish_with_user_data-success}
use ryan_mqtt.Topic.{
  char_at, is_wildcard, match_topic, match_loop, match_round, on_equal, on_different, on_plus,
  skip_level,
}
use ryan_mqtt.Topic.Levels.{LevelsMatch, levels}
use ryan_mqtt.Topic.Loop.{match_topic-LevelsMatch, match_topic-plus_hash}
use ryan_mqtt.Tests.{small_env, small_world, small-AnswersCount}

abbrev request : PublishRequest
request = record {
  topic = some (97 ∷ []);
  payload = some (104 ∷ 105 ∷ []);
  payload_len = 2;
  qos = 1;
  retain = false;
  user_data = 0;
}

publish_with_user_data-success_example :
    let v = (publish_with_user_data small_env request small_world).1 in
    (is_valid_request request ≡ true)
    × (get_client_state small_world ≡ connect_state)
    × (((1 ≡ qos0)
          × (v.wire ≡ 104 ∷ 105 ∷ [])
          × (v.client.user_ack_handler_list ≡ small_world.client.user_ack_handler_list))
        ⊎ ((1 ≢ qos0)
            × (v.wire ≡ 104 ∷ 105 ∷ [])
            × Waits request 65534
                (104 ∷ 105 ∷ [])
                small_world.client.user_ack_handler_list
                v.client.user_ack_handler_list))
unfolding publish_with_user_data publish_packet send_until_acked send_awaited get_next_packet_id
    next_id malloc free get_client_state send_packet start_sending send_loop send_round network_send
    refresh_keepalive_time remain_at sub32 timer_cutdown timer_remain ack_handler_create
    ack_list_add_to_user_ack_list msg_handler_create
publish_with_user_data-success_example =
    publish_with_user_data-success small_env small-AnswersCount request small_world (omega arith)
      refl

match_topic-LevelsMatch_example :
    LevelsMatch (levels (b'a' ∷ b'/' ∷ b'b' ∷ [])) (levels (b'+' ∷ b'/' ∷ b'#' ∷ []))
    × ((char_at (b'a' ∷ b'/' ∷ b'b' ∷ []) 0 == b'$'
          && is_wildcard (char_at (b'+' ∷ b'/' ∷ b'#' ∷ []) 0))
        ≡ false)
unfolding match_topic match_loop match_round on_equal on_different on_plus skip_level
match_topic-LevelsMatch_example =
    match_topic-LevelsMatch (b'a' ∷ b'/' ∷ b'b' ∷ []) (b'+' ∷ b'/' ∷ b'#' ∷ []) refl

match_topic-plus_hash_example :
    (match_topic (b'a' ∷ []) (b'+' ∷ b'/' ∷ b'#' ∷ []) ≡ false)
    × LevelsMatch (levels (b'a' ∷ [])) (levels (b'+' ∷ b'/' ∷ b'#' ∷ []))
match_topic-plus_hash_example = match_topic-plus_hash b'a' [] (refl, tt) refl refl

-- A topic filter and its topics.
topic_tests :
    (match_topic
        (b's' ∷ b'p' ∷ b'o' ∷ b'r' ∷ b't' ∷ b'/' ∷ b't' ∷ b'e' ∷ b'n' ∷ b'n' ∷ b'i' ∷ b's' ∷ [])
        (b's' ∷ b'p' ∷ b'o' ∷ b'r' ∷ b't' ∷ b'/' ∷ b'#' ∷ [])
      ≡ true)
    × (match_topic
          (b's' ∷ b'p' ∷ b'o' ∷ b'r' ∷ b't' ∷ [])
          (b's' ∷ b'p' ∷ b'o' ∷ b'r' ∷ b't' ∷ b'/' ∷ b'#' ∷ [])
        ≡ true)
    × (match_topic
          (b's' ∷ b'p' ∷ b'o' ∷ b'r' ∷ b't' ∷ b'/' ∷ b't' ∷ b'e' ∷ b'n' ∷ b'n' ∷ b'i' ∷ b's' ∷ b'/'
            ∷ b'x' ∷ [])
          (b's' ∷ b'p' ∷ b'o' ∷ b'r' ∷ b't' ∷ b'/' ∷ b'+' ∷ [])
        ≡ false)
    × (match_topic
          (b's' ∷ b'p' ∷ b'o' ∷ b'r' ∷ b't' ∷ b'/' ∷ [])
          (b's' ∷ b'p' ∷ b'o' ∷ b'r' ∷ b't' ∷ b'/' ∷ b'+' ∷ [])
        ≡ true)
    × (match_topic (b'$' ∷ b'S' ∷ b'Y' ∷ b'S' ∷ b'/' ∷ b'x' ∷ []) (b'#' ∷ []) ≡ false)
    × (match_topic (b'a' ∷ []) (b'+' ∷ b'/' ∷ b'#' ∷ []) ≡ false)
    × (match_topic (b'a' ∷ b'/' ∷ []) (b'+' ∷ b'/' ∷ b'+' ∷ []) ≡ false)
unfolding match_topic match_loop match_round on_equal on_different on_plus skip_level
topic_tests = (refl, refl, refl, refl, refl, refl, refl)
