-- ===== src/Settings/Steady.antt =====
-- Setting the configuration or the will uses no freed block.
use ryan_mqtt.Prelude.{Bool, List, Option, arith, some, ℕ, ◌≡◌}
use ryan_mqtt.Client.{Config}
use ryan_mqtt.Platform.{Env}
use ryan_mqtt.World.{World, free, malloc}
use ryan_mqtt.Publish.{text_of}
use ryan_mqtt.Thread.Destroy.{purge_config_lem}
use ryan_mqtt.Settings.{
  config_deep_copy, drop_will, dup_optional, empty_will, fill_will, open_will, put_will,
  will_payload, set_config, set_lwt,
}
use ryan_mqtt.Settings.Copy.{config_deep_copy_cases, dup_optional_cases}

pub set_config-dangling :
    (env : Env) (c : Config) (w : World) → (set_config env c w).1.dangling ≡ w.dangling
unfolding set_config
set_config-dangling env c w =
    let w1 = (config_deep_copy env c w).1 in
    ground (arith, config_deep_copy_cases env c w, purge_config_lem w1.client.config w1)

fill_will-dangling :
    (env : Env) (topic : List ℕ) (payload : Option (List ℕ)) (payload_len qos : ℕ) (retain : Bool)
    (w : World)
    → (fill_will env topic payload payload_len qos retain w).1.dangling ≡ w.dangling
unfolding fill_will drop_will free dup_optional
fill_will-dangling env topic payload payload_len qos retain w =
    let p = will_payload payload payload_len in
    let w1 = (dup_optional env p w).1 in
    ground (arith, dup_optional_cases env p w, dup_optional_cases env (some topic) w1)

open_will-dangling : (env : Env) (w : World) → (open_will env w).1.dangling ≡ w.dangling
unfolding open_will malloc free
open_will-dangling env w = ground arith

pub set_lwt-dangling :
    (env : Env) (topic payload : Option (List ℕ)) (payload_len qos : ℕ) (retain : Bool) (w : World)
    → (set_lwt env topic payload payload_len qos retain w).1.dangling ≡ w.dangling
unfolding set_lwt
set_lwt-dangling env topic payload payload_len qos retain w =
    let w1 = (open_will env w).1 in
    ground (
      arith,
      open_will-dangling env w,
      fill_will-dangling env (text_of topic) payload payload_len qos retain
          (put_will (some empty_will) w1),
    )
