-- ===== src/Settings/Copy.antt =====
-- The copies of strings, by whether the memory was there.
use ryan_mqtt.Prelude.{List, Option, arith, none, some, ℕ, ◌+◌, ◌≡◌, ◌≢◌, ◌⊎◌}
use ryan_mqtt.Public.{Error}
use ryan_mqtt.Client.{Config}
use ryan_mqtt.Platform.{Env}
use ryan_mqtt.World.{World, free, malloc}
use ryan_mqtt.Thread.{purge_config}
use ryan_mqtt.Thread.Destroy.{config_blocks, string_blocks}
use ryan_mqtt.Settings.{config_deep_copy, dup_optional, dup_string}

-- A copy is all there, with its block, or nothing is.
pub dup_optional_cases :
    (env : Env) (s : Option (List ℕ)) (w : World)
    → let ((e, d), v) = dup_optional env s w in
      ((e ≡ Error.success)
        × (d ≡ s)
        × (v ≡ record w { tick = v.tick; mallocs = w.mallocs + string_blocks s }))
      ⊎ ((e ≢ Error.success) × (d ≡ none) × (v ≡ record w { tick = v.tick }))
unfolding dup_optional dup_string malloc
dup_optional_cases env none w = ground arith
dup_optional_cases env (some s) w = ground arith

pub config_deep_copy_cases :
    (env : Env) (src : Config) (w : World)
    → let ((e, c), v) = config_deep_copy env src w in
      ((e ≡ Error.success)
        × (c ≡ src)
        × (v ≡ record w { tick = v.tick; mallocs = w.mallocs + config_blocks src }))
      ⊎ ((e ≢ Error.success)
          × (v ≡ record w { tick = v.tick; mallocs = v.mallocs; frees = v.frees })
          × (v.mallocs + w.frees ≡ w.mallocs + v.frees))
unfolding config_deep_copy purge_config free
config_deep_copy_cases env src w =
    let w1 = (dup_optional env src.client_id w).1 in
    let w2 = (dup_optional env src.user_name w1).1 in
    let w3 = (dup_optional env src.password w2).1 in
    let w4 = (dup_optional env src.host w3).1 in
    ground (
      arith,
      dup_optional_cases env src.client_id w,
      dup_optional_cases env src.user_name w1,
      dup_optional_cases env src.password w2,
      dup_optional_cases env src.host w3,
      dup_optional_cases env src.task_name w4,
    )
