-- ===== src/Query/GetConfig.antt =====
-- `RyanMqttGetConfig` with `RyanMqttFreeConfigFromGet` behind it.
use ryan_mqtt.Prelude.{Option, arith, some, ◌≡◌}
use ryan_mqtt.Public.{Error}
use ryan_mqtt.Client.{Config}
use ryan_mqtt.Platform.{Env}
use ryan_mqtt.World.{Balanced, World, free, malloc}
use ryan_mqtt.Session.{get_client_state}
use ryan_mqtt.Settings.{config_deep_copy}
use ryan_mqtt.Settings.Copy.{config_deep_copy_cases}
use ryan_mqtt.Thread.Destroy.{purge_config_lem}
use ryan_mqtt.Query.{free_config_from_get, get_config}

-- What the call took is given back, and the client is as it was.
pub get_config-kept :
    (env : Env) (w : World) (e : Error) (copy : Option Config) (u : World)
    → get_config env w ≡ some ((e, copy), u)
    → let v = (free_config_from_get copy u).1 in
      (v.client ≡ w.client) × (v.dangling ≡ w.dangling) × Balanced 0 w v
unfolding get_config free_config_from_get malloc free get_client_state
get_config-kept env w e copy u h =
    let w1 = (malloc env w).1 in
    let ((e', made), w2) = config_deep_copy env w.client.config w1 in
    ground (arith, config_deep_copy_cases env w.client.config w1, purge_config_lem made w2)
