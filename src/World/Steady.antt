-- ===== src/World/Steady.antt =====
-- What the client's work on packets leaves as it was: its settings, and its state but for a lost
-- connection.
use ryan_mqtt.Prelude.{arith, ◌≡◌, ◌⊎◌}
use ryan_mqtt.Public.{disconnect_state}
use ryan_mqtt.World.{Balanced, World}

pub record Steady (w v : World) : Type 0 where
  pub config : v.client.config ≡ w.client.config
  pub lwt_options : v.client.lwt_options ≡ w.client.lwt_options
  pub event_flag : v.client.event_flag ≡ w.client.event_flag
  pub destroy_flag : v.client.destroy_flag ≡ w.client.destroy_flag
  pub dangling : v.dangling ≡ w.dangling
  pub state :
      (v.client.client_state ≡ w.client.client_state) ⊎ (v.client.client_state ≡ disconnect_state)

pub Steady-refl : (w : World) → Steady w w
Steady-refl w = ground arith

pub Steady-trans : {u w v : World} → Steady u w → Steady w v → Steady u v
Steady-trans a b = ground (arith, a, b)

-- The same of the thread's own work, which also loses no heap block, but may use a freed one.
pub record Settled (w v : World) : Type 0 where
  pub config : v.client.config ≡ w.client.config
  pub lwt_options : v.client.lwt_options ≡ w.client.lwt_options
  pub event_flag : v.client.event_flag ≡ w.client.event_flag
  pub destroy_flag : v.client.destroy_flag ≡ w.client.destroy_flag
  pub state :
      (v.client.client_state ≡ w.client.client_state) ⊎ (v.client.client_state ≡ disconnect_state)
  pub balanced : Balanced 0 w v

pub Settled-trans : {u w v : World} → Settled u w → Settled w v → Settled u v
Settled-trans a b = ground (arith, a, b)
