-- ===== src/Tests/Query.antt =====
-- Runs of what the user can ask for.
use ryan_mqtt.Prelude.{[], false, true, none, some, ◌&&◌, ◌||◌, ◌≡◌, ◌≢◌, ◌⊎◌}
use ryan_mqtt.Public.{Error, connected, published, event_id}
use ryan_mqtt.World.{Balanced}
use ryan_mqtt.Query.{
  cancel_event_id, get_subscribe_safe, register_event_id, safe_free_subscribe_resources,
}
use ryan_mqtt.Query.Copies.{get_subscribe_safe_lem}
use ryan_mqtt.Query.Events.{event_mask-set, is_wanted}
use ryan_mqtt.Tests.{small_client, small_env, small_world}

get_subscribe_safe_lem_example :
    let ((e, found), v) = get_subscribe_safe small_env small_world in
    (v.client ≡ small_client)
    × (((e ≡ Error.success)
          × (((found ≡ none)
                × (small_client.msg_handler_list ≡ [])
                × (v.mallocs ≡ small_world.mallocs)
                × (v.frees ≡ small_world.frees))
              ⊎ ((found ≡ some small_client.msg_handler_list)
                  × Balanced 0 small_world (safe_free_subscribe_resources found v).1)))
        ⊎ ((e ≢ Error.success) × (found ≡ none) × Balanced 0 small_world v))
get_subscribe_safe_lem_example = get_subscribe_safe_lem small_env small_world

event_mask-set_example :
    (is_wanted published (register_event_id (event_id connected) small_world)
      ≡ (is_wanted published small_world || false))
    × (is_wanted published (cancel_event_id (event_id connected) small_world)
        ≡ (is_wanted published small_world && true))
event_mask-set_example = event_mask-set connected published small_world
