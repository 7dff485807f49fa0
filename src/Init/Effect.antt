-- ===== src/Init/Effect.antt =====
-- What a new client owns.
use ryan_mqtt.Prelude.{arith, ◌+◌, ◌≡◌, ◌≢◌, ◌⊎◌}
use ryan_mqtt.Public.{Error}
use ryan_mqtt.Platform.{Env}
use ryan_mqtt.World.{World, free, malloc}
use ryan_mqtt.Init.{fresh_client, init, init_parts}

init_parts_lem :
    (env : Env) (w : World) → let v = (init_parts env w).1 in v ≡ record w { tick = v.tick }
unfolding init_parts
init_parts_lem env w = ground arith

-- `RyanMqttInit` makes a fresh client with one heap block, or fails and leaves none behind.
pub init_lem :
    (env : Env) (w : World)
    → let (e, v) = init env w in
      ((e ≡ Error.success)
        × (v ≡ record w { client = fresh_client; tick = v.tick; mallocs = w.mallocs + 1 }))
      ⊎ ((e ≢ Error.success)
          × (v ≡ record w { tick = v.tick; mallocs = v.mallocs; frees = v.frees })
          × (v.mallocs + w.frees ≡ w.mallocs + v.frees))
unfolding init malloc free
init_lem env w = ground (arith, init_parts_lem env (malloc env w).1)
