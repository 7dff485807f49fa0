-- ===== src/Thread/Ends.antt =====
-- How a round of the thread ends.
use ryan_mqtt.Prelude.{
  Bool-cases, Option, arith, inl, inr, none, some, not, refl, true, ℕ, ◌∷◌, ◌≡◌, ◌≢◌,
}
use ryan_mqtt.Public.{
  Error, State, connect_state, disconnect_state, init_state, invalid_state, reconnect_state,
  start_state,
}
use ryan_mqtt.Platform.{Env}
use ryan_mqtt.World.{World, thread_stopped}
use ryan_mqtt.Session.{get_client_state}
use ryan_mqtt.Packet.{is_ok}
use ryan_mqtt.Thread.{
  Round, after_connect, after_process, destroy_client, ends, goes_on, overran, sleeps, state_round,
  thread_round,
}

-- What a round says about the world that it ends in, besides `Moves`.
abbrev Ending : World → Round → Type 0
Ending w (goes_on v) = Unit {0}
Ending w (overran v) = Unit {0}
Ending w (ends v) = ⊥
Ending w (sleeps v) = v ≡ record w { trace = thread_stopped ∷ w.trace }

after_connect-Ending :
    (env : Env) (r : Option (Error × ℕ)) (w v : World) → Ending w (after_connect env r v)
after_connect-Ending env none w v = tt
after_connect-Ending env (some (e, code)) w v = elim (Bool-cases (is_ok e)) [
  | inl ok ↦ rw ok tt
  | inr bad ↦ rw bad tt
]

after_process-Ending :
    (env : Env) (r : Option Error) (w v : World) → Ending w (after_process env r v)
after_process-Ending env none w v = tt
after_process-Ending env (some e) w v = tt

state_round-Ending : (env : Env) (s : State) (w : World) → Ending w (state_round env s w)
unfolding state_round
state_round-Ending env start_state w = after_connect-Ending env _ w _
state_round-Ending env reconnect_state w = after_connect-Ending env _ w _
state_round-Ending env connect_state w = after_process-Ending env _ w _
state_round-Ending env disconnect_state w =
    elim (Bool-cases (not w.client.config.auto_reconnect_flag)) [
      | inl manual ↦ rw manual refl
      | inr auto ↦ rw auto tt
    ]
state_round-Ending env init_state w = tt
state_round-Ending env invalid_state w = tt

Ending-ends : (w v : World) (r : Round) → Ending w r → r ≢ ends v
Ending-ends w v (goes_on u) h = ground arith
Ending-ends w v (overran u) h = ground arith
Ending-ends w v (sleeps u) h = ground arith
Ending-ends w v (ends u) h = absurd h

Ending-sleeps :
    (w v : World) (r : Round)
    → Ending w r
    → r ≡ sleeps v
    → v ≡ record w { trace = thread_stopped ∷ w.trace }
Ending-sleeps w v (goes_on u) h e = cc
Ending-sleeps w v (overran u) h e = cc
Ending-sleeps w v (sleeps u) h e = cc
Ending-sleeps w v (ends u) h e = absurd h

module _ (env : Env) (w v : World) where
  -- The thread ends where the client is to be destroyed, and nowhere else.
  pub thread_round-ends :
      thread_round env w ≡ ends v → (w.client.destroy_flag ≡ true) × (v ≡ destroy_client env w)
  unfolding thread_round
  thread_round-ends e = elim (Bool-cases w.client.destroy_flag) [
    | inl d ↦ ground (arith, d, e)
    | inr n ↦ absurd (
        Ending-ends w v (state_round env (get_client_state w) w)
          (state_round-Ending env (get_client_state w) w) (ground (arith, n, e)))
  ]

  -- A thread that stops leaves all else as it was.
  pub thread_round-sleeps :
      thread_round env w ≡ sleeps v → v ≡ record w { trace = thread_stopped ∷ w.trace }
  unfolding thread_round
  thread_round-sleeps e = elim (Bool-cases w.client.destroy_flag) [
    | inl d ↦ ground (arith, d, e)
    | inr n ↦
        Ending-sleeps w v (state_round env (get_client_state w) w)
          (state_round-Ending env (get_client_state w) w) (ground (arith, n, e))
  ]
