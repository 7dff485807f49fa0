-- ===== src/Life/Owns.antt =====
-- Over its whole life a client has on the heap exactly the blocks that it owns.
use ryan_mqtt.Prelude.{
  Bool-cases, ◌∙◌, sym, ap, arith, false, inl, inr, refl, true, ◌+◌, ◌≡◌, ◌≢◌, ◌⊎◌,
}
use ryan_mqtt.Public.{
  reconnect_before, Error, State, connect_state, disconnect_state, init_state, invalid_state,
  reconnect_state, start_state,
}
use ryan_mqtt.Platform.{Env}
use ryan_mqtt.World.{World, no_data}
use ryan_mqtt.Session.{get_client_state, set_client_state}
use ryan_mqtt.Event.{event_machine}
use ryan_mqtt.Event.Effect.{notify_lem}
use ryan_mqtt.Init.Effect.{init_lem}
use ryan_mqtt.Lifecycle.{is_disconnected, is_init, reconnect, start}
use ryan_mqtt.Thread.{goes_on, thread_round, wake}
use ryan_mqtt.Thread.Balance.{
  Follows, IsStarted, Kept, Moves, start_up, start_failed, retry_up, retry_failed, stays_up, lost,
  retries, thread_round-Moves, wake-Moves,
}
use ryan_mqtt.Thread.Destroy.{client_blocks}
use ryan_mqtt.Thread.Ends.{thread_round-sleeps}
use ryan_mqtt.Query.{free_config_from_get}
use ryan_mqtt.Life.{
  Lives, Phase, Step, asleep, born, calls, fails, idle, next, perform, reads_config, rounds,
  running, starts, stops, wakes,
}
use ryan_mqtt.Life.Calls.{Served, get_config-Served, perform-Served}

-- The thread of a client runs or sleeps in one of its states.
abbrev pub IsReady : Phase → State → Type 0
IsReady idle s = Unit {0}
IsReady running s = IsStarted s
IsReady asleep s = IsStarted s

pub record Owns (p : Phase) (w : World) : Type 0 where
  pub blocks : w.mallocs ≡ w.frees + client_blocks w.client
  pub dangling : w.dangling ≡ false
  pub ready : IsReady p w.client.client_state

IsReady-at : {p q : Phase} {s t : State} → q ≡ p → t ≡ s → IsReady p s → IsReady q t
IsReady-at a b h = rw (a, b) h

IsReady-disconnected : (p : Phase) {t : State} → t ≡ disconnect_state → IsReady p t
IsReady-disconnected idle e = tt
IsReady-disconnected running e = rw e tt
IsReady-disconnected asleep e = rw e tt

Served-Owns : (p : Phase) (w v : World) → Served w v → Owns p w → Owns p v
Served-Owns p w v s o = record {
  blocks = ground (arith, s.accounted, o.blocks);
  dangling = s.dangling ∙ o.dangling;
  ready = elim s.state [
    | inl same ↦ IsReady-at refl same o.ready
    | inr cut ↦ IsReady-disconnected p cut
  ];
}

Follows-IsStarted : {s t : State} → Follows s t → IsStarted t
Follows-IsStarted start_up = tt
Follows-IsStarted start_failed = tt
Follows-IsStarted retry_up = tt
Follows-IsStarted retry_failed = tt
Follows-IsStarted stays_up = tt
Follows-IsStarted lost = tt
Follows-IsStarted retries = tt

Moves-blocks :
    (w v : World)
    → Kept w v
    → w.mallocs ≡ w.frees + client_blocks w.client
    → v.mallocs ≡ v.frees + client_blocks v.client
Moves-blocks w v k b = ground (arith, k)

-- The new state of a thread that goes on.
Moves-Owns :
    {q : Phase} (w v : World)
    → Moves w v
    → w.mallocs ≡ w.frees + client_blocks w.client
    → v.dangling ≡ false
    → q ≡ running
    → Owns q v
Moves-Owns w v m b fine e = record {
  blocks = Moves-blocks w v m.kept b;
  dangling = fine;
  ready = IsReady-at e refl (Follows-IsStarted m.follows);
}

is_init-true : (s : State) → is_init s ≡ true → s ≡ init_state
is_init-true init_state e = refl
is_init-true start_state e = ground (arith, e)
is_init-true connect_state e = ground (arith, e)
is_init-true disconnect_state e = ground (arith, e)
is_init-true reconnect_state e = ground (arith, e)
is_init-true invalid_state e = ground (arith, e)

is_disconnected-true : (s : State) → is_disconnected s ≡ true → s ≡ disconnect_state
is_disconnected-true disconnect_state e = refl
is_disconnected-true start_state e = ground (arith, e)
is_disconnected-true connect_state e = ground (arith, e)
is_disconnected-true init_state e = ground (arith, e)
is_disconnected-true reconnect_state e = ground (arith, e)
is_disconnected-true invalid_state e = ground (arith, e)

module _ (env : Env) where
  start_cases :
      (w : World)
      → let (e, v) = start env w in
        ((e ≡ Error.success)
          × (v ≡ record w {
            client = record w.client { client_state = start_state };
            tick = v.tick;
          }))
        ⊎ ((e ≢ Error.success) × (v ≡ record w { tick = v.tick }))
  unfolding start set_client_state get_client_state
  start_cases w = elim (Bool-cases (is_init w.client.client_state)) [
    | inl y ↦ ground (arith, y, is_init-true w.client.client_state y)
    | inr n ↦ ground (arith, n)
  ]

  round-last : (w v : World) → w.client.destroy_flag ≡ true → thread_round env w ≢ goes_on v
  unfolding thread_round
  round-last w v d e = ground (arith, d, e)

  thread_round-goes_on :
      (w v : World)
      → w.dangling ≡ false
      → IsStarted w.client.client_state
      → thread_round env w ≡ goes_on v
      → Moves w v
  thread_round-goes_on w v fine started e = elim (Bool-cases w.client.destroy_flag) [
    | inl d ↦ absurd (round-last w v d e)
    | inr n ↦ (rw e at (thread_round-Moves env w fine n started))
  ]

  reconnect-success :
      (w u : World)
      → reconnect env w ≡ (Error.success, u)
      → (w.client.client_state ≡ disconnect_state) × (u ≡ record w { tick = u.tick })
  unfolding reconnect get_client_state
  reconnect-success w u e = elim (Bool-cases (is_disconnected w.client.client_state)) [
    | inl y ↦ ground (arith, y, e, is_disconnected-true w.client.client_state y)
    | inr n ↦ ground (arith, n, e)
  ]

  wake-dangling : (w : World) → (wake env w).dangling ≡ w.dangling
  unfolding wake event_machine set_client_state
  wake-dangling w =
      ground (arith, notify_lem reconnect_before no_data (set_client_state reconnect_state w))

  Step-Owns : {p q : Phase} {w v : World} → Step env p w q v → Owns p w → Owns q v
  Step-Owns {p} {q} {w} {v} (calls c a e) o =
      rw (a, e) (Served-Owns p w (perform env c w) (perform-Served env c w) o)
  Step-Owns {p} {q} {w} {v} (reads_config e copy u a h f) o =
      rw (a, f)
        (Served-Owns p w (free_config_from_get copy u).1 (get_config-Served env w e copy u h) o)
  Step-Owns {p} {q} {w} {v} (starts a e b) o = elim (start_cases w) [
    | inl (_, s) ↦ record {
      blocks = ground (arith, e, s, o.blocks);
      dangling = ground (arith, e, s, o.dangling);
      ready = IsReady-at {s = start_state} b (ground (arith, e, s)) tt;
    }
    | inr (bad, _) ↦ absurd (bad (ap (λ r. r.0) e))
  ]
  Step-Owns {p} {q} {w} {v} (fails err bad e a) o = elim (start_cases w) [
    | inl (ok, s) ↦ absurd (bad (sym (ap (λ r. r.0) e) ∙ ok))
    | inr (_, s) ↦ record {
      blocks = ground (arith, e, s, o.blocks);
      dangling = ground (arith, e, s, o.dangling);
      ready = IsReady-at a (ground (arith, e, s)) o.ready;
    }
  ]
  Step-Owns {p} {q} {w} {v} (rounds a e fine b) o =
      Moves-Owns w v (thread_round-goes_on w v o.dangling (IsReady-at (sym a) refl o.ready) e)
        o.blocks fine b
  Step-Owns {p} {q} {w} {v} (stops a e b) o =
      let s = thread_round-sleeps env w v e in
      record {
        blocks = ground (arith, s, o.blocks);
        dangling = ground (arith, s, o.dangling);
        ready = IsReady-at b (ground (arith, s)) (IsReady-at (sym a) refl o.ready);
      }
  Step-Owns {p} {q} {w} {v} (wakes u a e f b) o =
      let (d, s) = reconnect-success w u e in
      rw f (
        Moves-Owns u (wake env u) (wake-Moves env u (ground (arith, d, s)))
          (ground (arith, s, o.blocks)) (ground (arith, s, wake-dangling u, o.dangling)) b)

  pub Lives-Owns : {p : Phase} {w : World} → Lives env p w → Owns p w
  Lives-Owns {p} {w = v} (born w a even fine e) = elim (init_lem env w) [
    | inl (_, s) ↦ record {
      blocks = ground (arith, e, s, even);
      dangling = ground (arith, e, s, fine);
      ready = IsReady-at {s = init_state} a (ground (arith, e, s)) tt;
    }
    | inr (bad, _, _) ↦ absurd (bad (ap (λ r. r.0) e))
  ]
  Lives-Owns (next l s) = Step-Owns s (Lives-Owns l)

  -- From a successful RyanMqttInit on a heap that was even, through every sequence of the steps of
  -- Life, the number of heap blocks not yet freed is the number of those that the client owns (its
  -- session, its settings, its will and itself), and a thread that runs or sleeps never meets the
  -- state that its `switch` has no case for. The steps are the calls that `Call` lists, RyanMqttGetConfig on
  -- a configuration that was set, starts, sleeps, wakes, and those rounds of the thread that used no freed block and
  -- wrote behind no buffer, with a callback that makes no calls of the client before its round is over.
  pub Lives-blocks :
      (p : Phase) (w : World)
      → Lives env p w
      → (w.mallocs ≡ w.frees + client_blocks w.client) × IsReady p w.client.client_state
  Lives-blocks p w l = let o = Lives-Owns l in (o.blocks, o.ready)
