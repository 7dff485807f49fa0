-- ===== src/Tests/Subscribe.antt =====
-- Runs of subscribing and unsubscribing.
use ryan_mqtt.Prelude.{[], List, Option, arith, ltb, refl, some, true, ℕ, ◌<◌, ◌∷◌, ◌≡◌, ◌⊎◌}
use ryan_mqtt.Public.{connect_state, packet_type_suback, packet_type_unsuback}
use ryan_mqtt.Platform.{Env, SubscribeInfo}
use ryan_mqtt.World.{free, malloc}
use ryan_mqtt.Timer.{remain_at, sub32, timer_cutdown, timer_remain}
use ryan_mqtt.Event.{refresh_keepalive_time}
use ryan_mqtt.PacketId.{get_next_packet_id, next_id}
use ryan_mqtt.Session.{get_client_state}
use ryan_mqtt.Handler.{
  ack_handler_create, ack_list_add_to_user_ack_list, msg_handler_add_to_msg_list,
  msg_handler_create, msg_handler_destroy,
}
use ryan_mqtt.Network.{network_send, send_loop, send_packet, send_round, start_sending}
use ryan_mqtt.Network.Effect.{NoSession, SameSession}
use ryan_mqtt.Ack.{awaits}
use ryan_mqtt.Subscribe.{
  SubscribeData, add_topics, all_pass, await_topic, await_topics, end_subscribe,
  is_valid_subscription, subscribe_many, subscribe_packet, subscribe_topics,
}
use ryan_mqtt.Subscribe.Effect.{IsFresh}
use ryan_mqtt.Subscribe.Rollback.{Undone, subscribe_many-rollback}
use ryan_mqtt.Subscribe.Success.{Subscribed, subscribe_many-success}
use ryan_mqtt.Unsubscribe.{
  await_known_topics, un_subscribe_many, unsubscribe_packet, unsubscribe_topics,
}
use ryan_mqtt.Unsubscribe.Effect.{un_subscribe_many-rollback}
use ryan_mqtt.Tests.{small-AnswersCount, small_core, small_env, small_platform, small_world}

abbrev two_topics : List SubscribeData
two_topics =
    record { topic = some (97 ∷ []); qos = 1 } ∷ record { topic = some (98 ∷ []); qos = 2 } ∷ []

abbrev two_infos : List SubscribeInfo
two_infos =
    record { topic_filter = 97 ∷ []; qos = 1 } ∷ record { topic_filter = 98 ∷ []; qos = 2 } ∷ []

-- The memory is gone at the second topic.
abbrev narrow_env : Env
narrow_env = record {
  platform = record small_platform { malloc_ok = λ k. ltb k 5 };
  core = small_core;
}

fresh : (packet_type : ℕ) → IsFresh packet_type 65534 small_world
unfolding awaits
fresh packet_type = record { acks = (refl, tt); user_acks = (refl, tt); msgs = (refl, (refl, tt)) }

subscribe_many-success_example :
    (0 < 2)
    × (all_pass is_valid_subscription two_topics ≡ true)
    × (get_client_state small_world ≡ connect_state)
    × Subscribed 65534 two_infos
        (130 ∷ 65534 ∷ [])
        small_world
        (subscribe_many small_env two_topics small_world).1
unfolding subscribe_many subscribe_packet subscribe_topics end_subscribe await_topics await_topic
    add_topics msg_handler_add_to_msg_list get_next_packet_id next_id malloc free get_client_state
    send_packet start_sending send_loop send_round network_send refresh_keepalive_time remain_at
    sub32 timer_cutdown timer_remain ack_handler_create ack_list_add_to_user_ack_list
    msg_handler_create
subscribe_many-success_example =
    subscribe_many-success small_env small-AnswersCount two_topics small_world (omega arith) refl

subscribe_many-rollback_example :
    Undone small_world (subscribe_many narrow_env two_topics small_world).1
unfolding subscribe_many subscribe_packet subscribe_topics end_subscribe await_topics await_topic
    add_topics msg_handler_add_to_msg_list get_next_packet_id next_id malloc free get_client_state
    timer_cutdown ack_handler_create ack_list_add_to_user_ack_list msg_handler_create
    msg_handler_destroy
subscribe_many-rollback_example =
    subscribe_many-rollback narrow_env two_topics small_world (fresh packet_type_suback)
      (λ e. ground arith)

abbrev unwanted : List (Option (List ℕ))
unwanted = some (97 ∷ []) ∷ some (98 ∷ []) ∷ []

un_subscribe_many-rollback_example :
    let v = (un_subscribe_many narrow_env unwanted small_world).1 in
    SameSession small_world v ⊎ NoSession v
unfolding un_subscribe_many unsubscribe_packet unsubscribe_topics await_known_topics await_topic
    get_next_packet_id next_id malloc free get_client_state timer_cutdown ack_handler_create
    ack_list_add_to_user_ack_list msg_handler_create msg_handler_destroy
un_subscribe_many-rollback_example =
    un_subscribe_many-rollback narrow_env unwanted small_world (fresh packet_type_unsuback)
      (λ e. ground arith)
