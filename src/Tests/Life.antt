-- ===== src/Tests/Life.antt =====
-- A client's life, from RyanMqttInit to the first round of its thread.
use ryan_mqtt.Prelude.{[], ◌∷◌, refl, ◌+◌, ◌≡◌}
use ryan_mqtt.World.{World, malloc}
use ryan_mqtt.Settings.{config_deep_copy, dup_optional, dup_string, set_config}
use ryan_mqtt.Init.{init, init_parts}
use ryan_mqtt.Session.{get_client_state, set_client_state}
use ryan_mqtt.Lifecycle.{destroy, start}
use ryan_mqtt.Thread.{purge_config, ends, thread_round}
use ryan_mqtt.Thread.Destroy.{client_blocks}
use ryan_mqtt.Life.{Call, Lives, born, calls, idle, next, perform, performs, running, starts}
use ryan_mqtt.Life.Owns.{IsReady, Lives-blocks}
use ryan_mqtt.Life.Ends.{Lives-destroy}
use ryan_mqtt.Tests.{small_env, small_world}
use ryan_mqtt.Tests.Settings.{new_config}

abbrev empty_heap : World
empty_heap = record small_world { mallocs = 0 }

abbrev new_born : World
new_born = (init small_env empty_heap).1

abbrev configured : World
configured = perform small_env (Call.configures new_config) new_born

abbrev started : World
started = (start small_env configured).1

new_born-Lives : Lives small_env idle new_born
unfolding init init_parts malloc
new_born-Lives = born empty_heap refl refl refl refl

configured-Lives : Lives small_env idle configured
configured-Lives = next new_born-Lives (calls (Call.configures new_config) refl refl)

started-Lives : Lives small_env running started
unfolding start init init_parts malloc perform set_config set_client_state get_client_state
    config_deep_copy dup_optional dup_string purge_config
started-Lives = next configured-Lives (starts refl refl refl)

Lives-blocks_example :
    (started.mallocs ≡ started.frees + client_blocks started.client)
    × IsReady running started.client.client_state
Lives-blocks_example = Lives-blocks small_env running started started-Lives

Lives-destroy_example :
    (v : World) × (thread_round small_env (performs small_env (Call.lists ∷ []) (destroy started).1)
      ≡ ends v)
    × (v.mallocs ≡ v.frees)
Lives-destroy_example = Lives-destroy small_env started (Call.lists ∷ []) started-Lives
