-- ===== src/Tests/Settings.antt =====
-- Runs of the settings and of the life cycle.
use ryan_mqtt.Prelude.{ℕ, [], arith, false, some, true, ◌++◌, ◌∷◌, ◌≡◌, ◌≢◌, ◌⊎◌}
use ryan_mqtt.Public.{Error, connect_state, disconnect_state, reconnect_state}
use ryan_mqtt.Client.{Config}
use ryan_mqtt.World.{Balanced, World}
use ryan_mqtt.Session.{get_client_state}
use ryan_mqtt.Settings.{is_invalid, is_valid_config, set_config}
use ryan_mqtt.Settings.Effect.{Accounted, set_config_lem}
use ryan_mqtt.Lifecycle.{disconnect}
use ryan_mqtt.Lifecycle.Effect.{disconnect_lem, farewell}
use ryan_mqtt.Tests.{small-AnswersCount, small_client, small_config, small_env, small_world}

abbrev pub new_config : Config
new_config = record small_config {
  client_id = some (99 ∷ []);
  host = some (104 ∷ []);
  task_name = some (116 ∷ []);
}

set_config_lem_example :
    let (e, v) = set_config small_env new_config small_world in
    (((e ≡ Error.success)
        × (is_invalid (get_client_state small_world) ≡ false)
        × (is_valid_config new_config ≡ true)
        × (v.client ≡ record small_client { config = new_config }))
      ⊎ ((e ≢ Error.success) × (v.client ≡ small_client)))
    × Accounted small_world v
set_config_lem_example = set_config_lem small_env new_config small_world

abbrev offline : World
offline = record small_world { client = record small_client { client_state = reconnect_state } }

disconnect_lem_example :
    let (e, v) = disconnect small_env true small_world in
    (((e ≡ Error.success)
        × (get_client_state small_world ≡ connect_state)
        × (v.client.client_state ≡ disconnect_state)
        × (v.wire ≡ [] ++ farewell small_env true))
      ⊎ (e ≢ Error.success))
    × Balanced 0 small_world v
disconnect_lem_example = disconnect_lem small_env small-AnswersCount (omega arith) true small_world

abbrev awaited_id : ℕ
awaited_id = 7
