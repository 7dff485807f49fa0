-- ===== src/Thread/Destroy.antt =====
-- The end of the client.
use ryan_mqtt.Prelude.{List, Option, arith, none, some, ℕ, ◌+◌, ◌∷◌, ◌≡◌}
use ryan_mqtt.Public.{destroy_before}
use ryan_mqtt.Client.{Client, Config, LwtOptions, owned}
use ryan_mqtt.Platform.{Env}
use ryan_mqtt.World.{
  World, client_freed, closed, free, network_destroyed, no_data, thread_destroyed,
}
use ryan_mqtt.Session.Purge.{purge_session_lem}
use ryan_mqtt.Event.{event_machine, network_close, notify}
use ryan_mqtt.Event.Effect.{notify_lem}
use ryan_mqtt.Thread.{destroy_client, free_lwt, free_string, purge_config}

abbrev pub string_blocks : Option (List ℕ) → ℕ
string_blocks none = 0
string_blocks (some xs) = 1

-- The heap blocks of the configuration's strings, and of the will.
abbrev pub config_blocks : Config → ℕ
config_blocks c =
    string_blocks c.client_id
    + string_blocks c.user_name
    + string_blocks c.password
    + string_blocks c.host
    + string_blocks c.task_name

abbrev pub lwt_blocks : Option LwtOptions → ℕ
lwt_blocks none = 0
lwt_blocks (some o) = 1 + string_blocks o.topic + string_blocks o.payload

-- All that the client owns, with itself.
abbrev pub client_blocks : Client → ℕ
client_blocks c = owned c + config_blocks c.config + lwt_blocks c.lwt_options + 1

free_string_lem :
    (s : Option (List ℕ)) (w : World)
    → free_string s w ≡ record w { frees = w.frees + string_blocks s }
unfolding free
free_string_lem none w = ground arith
free_string_lem (some xs) w = ground arith

pub purge_config_lem :
    (c : Config) (w : World) → purge_config c w ≡ record w { frees = w.frees + config_blocks c }
unfolding purge_config free
purge_config_lem c w = ground arith

free_lwt_lem :
    (o : Option LwtOptions) (w : World) → free_lwt o w ≡ record w { frees = w.frees + lwt_blocks o }
unfolding free
free_lwt_lem none w = ground arith
free_lwt_lem (some o) w = ground arith

-- The end of the client frees exactly as many blocks as the client owns: its session, its settings,
-- its will and itself. Nothing is sent. After the user's last callback the network is closed and
-- destroyed; when the client's own block is freed, as many blocks were freed as the session, the
-- settings and the will have; the end of the thread is the last step.
pub destroy_client_lem :
    (env : Env) (w : World)
    → let v = destroy_client env w in
      (v.frees ≡ w.frees + client_blocks w.client)
      × (v.mallocs ≡ w.mallocs)
      × (v.wire ≡ w.wire)
      × (v.trace
          ≡ thread_destroyed
            ∷ client_freed (
                w.frees
                + owned w.client
                + config_blocks w.client.config
                + lwt_blocks w.client.lwt_options)
            ∷ network_destroyed
            ∷ closed
            ∷ (event_machine env destroy_before no_data w).trace)
unfolding destroy_client event_machine network_close free
destroy_client_lem env w =
    let w1 = network_close (notify destroy_before no_data w) in
    let w2 = record w1 { trace = network_destroyed ∷ w1.trace } in
    let w3 = purge_config w2.client.config w2 in
    let w4 = free_lwt w2.client.lwt_options w3 in
    ground (
      arith,
      notify_lem destroy_before no_data w,
      purge_config_lem w2.client.config w2,
      free_lwt_lem w2.client.lwt_options w3,
      purge_session_lem w4,
    )
