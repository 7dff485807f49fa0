-- ===== src/Life/Ends.antt =====
-- The end of a client's life leaves nothing on the heap.
use ryan_mqtt.Prelude.{List, [], arith, refl, true, ◌∷◌, ◌≡◌}
use ryan_mqtt.Platform.{Env}
use ryan_mqtt.World.{World}
use ryan_mqtt.Lifecycle.{destroy}
use ryan_mqtt.Thread.{destroy_client, ends, thread_round}
use ryan_mqtt.Thread.Destroy.{destroy_client_lem}
use ryan_mqtt.Thread.Ends.{thread_round-ends}
use ryan_mqtt.Life.{Call, Lives, calls, next, perform, performs, running}
use ryan_mqtt.Life.Calls.{perform-destroyed}
use ryan_mqtt.Life.Owns.{Lives-Owns}

module _ (env : Env) where
  -- When the thread of a client that has lived so ends, as many heap blocks were freed as were
  -- allocated: the client leaves nothing behind.
  pub Lives-ends :
      (w v : World) → Lives env running w → thread_round env w ≡ ends v → v.mallocs ≡ v.frees
  Lives-ends w v l e =
      ground
        (arith, (Lives-Owns env l).blocks, thread_round-ends env w v e, destroy_client_lem env w)

  performs-destroyed :
      (cs : List Call) (w : World)
      → Lives env running w
      → w.client.destroy_flag ≡ true
      → let v = performs env cs w in Lives env running v × (v.client.destroy_flag ≡ true)
  unfolding performs
  performs-destroyed [] w l d = (l, d)
  performs-destroyed (c ∷ cs) w l d =
      performs-destroyed cs (perform env c w) (next l (calls c refl refl))
        (perform-destroyed env c w d)

  thread_round-destroyed :
      (w : World) → w.client.destroy_flag ≡ true → thread_round env w ≡ ends (destroy_client env w)
  unfolding thread_round
  thread_round-destroyed w d = rw d refl

  -- Once RyanMqttDestroy was called, and whatever calls of `Call` follow it before the running thread
  -- begins its next round, that round is the last one, and then as many heap blocks were freed as were
  -- allocated. This supposes that the client came there by the steps of Life, so that no round before
  -- used a freed block or wrote behind a buffer.
  pub Lives-destroy :
      (w : World) (cs : List Call)
      → Lives env running w
      → (v : World) × (thread_round env (performs env cs (destroy w).1) ≡ ends v)
        × (v.mallocs ≡ v.frees)
  unfolding destroy perform
  Lives-destroy w cs l =
      let (l', d) =
        performs-destroyed cs (destroy w).1 (next l (calls Call.destroys refl refl)) refl in
      let u = performs env cs (destroy w).1 in
      let last = thread_round-destroyed u d in
      (destroy_client env u, last, Lives-ends u (destroy_client env u) l' last)
