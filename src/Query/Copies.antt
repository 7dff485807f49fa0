-- ===== src/Query/Copies.antt =====
-- The copies that the user gets, and gives back.
use ryan_mqtt.Prelude.{
  ◌==◌, refl, Bool-cases, List, Option, [], arith, false, inl, inr, length, map, none, some, suc,
  take, true, zero, ℕ, ◌+◌, ◌<◌, ◌≤◌, ◌∷◌, ◌≡◌, ◌≢◌, ◌⊎◌,
}
use ryan_mqtt.Public.{Error}
use ryan_mqtt.Client.{Config, MsgHandler}
use ryan_mqtt.Platform.{Env}
use ryan_mqtt.World.{Balanced, World, free, malloc}
use ryan_mqtt.Settings.{dup_string}
use ryan_mqtt.Query.{
  copy_loop, count_loop, free_config_from_get, free_topics, get_config, get_subscribe,
  get_subscribe_safe, get_subscribe_total_count, make_copies, safe_free_subscribe_resources,
  subscribe_loop, subscribed_of,
}

-- The loop has room for `k` entries more.
subscribe_loop_lem :
    (size num k : ℕ) (ms : List MsgHandler)
    → size ≡ num + k
    → let (e, found) = subscribe_loop size num ms in
      (found ≡ map subscribed_of (take k ms))
      × (((e ≡ Error.success) × (length ms ≤ k)) ⊎ ((e ≡ Error.no_rescource) × (k < length ms)))
subscribe_loop_lem size num zero [] h = ground arith
subscribe_loop_lem size num (suc k) [] h = ground arith
subscribe_loop_lem size num zero (m ∷ ms) h = ground arith
subscribe_loop_lem size num (suc k) (m ∷ ms) h =
    ground (arith, subscribe_loop_lem size (num + 1) k ms (omega arith))

-- `RyanMqttGetSubscribe` with room for at least one entry writes the topic and QoS of the first
-- subscriptions, in their order, as many as there is room for, and answers success exactly when these
-- are all. Without room it refuses.
pub get_subscribe_lem :
    (size : ℕ) (w : World)
    → let (e, found) = get_subscribe size w in
      ((size ≡ 0) × (e ≡ Error.param_invalid) × (found ≡ []))
      ⊎ ((size ≢ 0)
          × (found ≡ map subscribed_of (take size w.client.msg_handler_list))
          × (((e ≡ Error.success) × (length w.client.msg_handler_list ≤ size))
              ⊎ ((e ≡ Error.no_rescource) × (size < length w.client.msg_handler_list))))
unfolding get_subscribe
get_subscribe_lem size w =
    ground (arith, subscribe_loop_lem size 0 size w.client.msg_handler_list (omega arith))

count_loop_lem : (total : ℕ) (ms : List MsgHandler) → count_loop total ms ≡ total + length ms
count_loop_lem total [] = omega arith
count_loop_lem total (m ∷ ms) = omega (arith, count_loop_lem (total + 1) ms)

dup_string_cases :
    (env : Env) (s : List ℕ) (w : World)
    → let ((e, d), v) = dup_string env s w in
      ((e ≡ Error.success)
        × (d ≡ some s)
        × (v ≡ record w { tick = v.tick; mallocs = w.mallocs + 1 }))
      ⊎ ((e ≢ Error.success) × (v ≡ record w { tick = v.tick }))
unfolding dup_string malloc
dup_string_cases env s w = ground arith

copy_loop_lem :
    (env : Env) (room : ℕ) (ms : List MsgHandler) (w : World)
    → room ≡ length ms
    → let ((done, copies), v) = copy_loop env room ms w in
      (v ≡ record w { tick = v.tick; mallocs = w.mallocs + length copies })
      × (((done ≡ true) × (copies ≡ ms)) ⊎ (done ≡ false))
unfolding copy_loop
copy_loop_lem env room [] w h = ground arith
copy_loop_lem env zero (m ∷ ms) w h = absurd (omega arith)
copy_loop_lem env (suc room) (m ∷ ms) w h =
    let ((e, topic), w1) = dup_string env m.topic w in
    ground (arith, dup_string_cases env m.topic w, copy_loop_lem env room ms w1 (omega arith))

free_topics_lem :
    (ms : List MsgHandler) (w : World) → free_topics ms w ≡ record w { frees = w.frees + length ms }
unfolding free_topics free
free_topics_lem [] w = ground arith
free_topics_lem (m ∷ ms) w = ground (arith, free_topics_lem ms (free w))

get_subscribe_total_count-length :
    (w : World) → get_subscribe_total_count w ≡ length w.client.msg_handler_list
unfolding get_subscribe_total_count
get_subscribe_total_count-length w = omega (arith, count_loop_lem 0 w.client.msg_handler_list)

empty_of_length : {A : Type 0} (xs : List A) → length xs ≡ 0 → xs ≡ []
empty_of_length [] e = refl
empty_of_length (x ∷ xs) e = absurd (omega arith)

make_copies_lem :
    (env : Env) (total : ℕ) (w : World)
    → total ≡ length w.client.msg_handler_list
    → let ((e, found), v) = make_copies env total w in
      (v.client ≡ w.client)
      × (((e ≡ Error.success)
            × (found ≡ some w.client.msg_handler_list)
            × Balanced 0 w (safe_free_subscribe_resources found v).1)
          ⊎ ((e ≢ Error.success) × (found ≡ none) × Balanced 0 w v))
unfolding make_copies safe_free_subscribe_resources malloc free
make_copies_lem env total w h =
    let ms = w.client.msg_handler_list in
    let w1 = (malloc env w).1 in
    let ((done, copies), w2) = copy_loop env total ms w1 in
    let made = copy_loop_lem env total ms w1 h in ground (arith, made, free_topics_lem copies w2)

-- What `RyanMqttGetSubscribeSafe` allocates is exactly what `RyanMqttSafeFreeSubscribeResources` frees:
-- if it answers success, the user has a copy of every subscription, in their order, or a null array
-- where there is none; the client is as it was; and after the release no block is left. If it answers
-- anything else, it wrote no array and left no block behind, also when the memory is gone between two
-- topics.
pub get_subscribe_safe_lem :
    (env : Env) (w : World)
    → let ((e, found), v) = get_subscribe_safe env w in
      (v.client ≡ w.client)
      × (((e ≡ Error.success)
            × (((found ≡ none)
                  × (w.client.msg_handler_list ≡ [])
                  × (v.mallocs ≡ w.mallocs)
                  × (v.frees ≡ w.frees))
                ⊎ ((found ≡ some w.client.msg_handler_list)
                    × Balanced 0 w (safe_free_subscribe_resources found v).1)))
          ⊎ ((e ≢ Error.success) × (found ≡ none) × Balanced 0 w v))
unfolding get_subscribe_safe
get_subscribe_safe_lem env w =
    let ms = w.client.msg_handler_list in
    let total = get_subscribe_total_count-length w in
    elim (Bool-cases (get_subscribe_total_count w == 0)) [
      | inl z ↦
          rw z (
            refl,
            inl (refl, inl (refl, empty_of_length ms (ground (arith, total, z)), refl, refl)),
          )
      | inr n ↦ rw n (ground (arith, make_copies_lem env (get_subscribe_total_count w) w total))
    ]

-- After the release all is as it was.
make_copies-kept :
    (env : Env) (total : ℕ) (w : World)
    → total ≡ length w.client.msg_handler_list
    → let ((e, found), v) = make_copies env total w in
      let u = (safe_free_subscribe_resources found v).1 in
      (u.client ≡ w.client) × (u.dangling ≡ w.dangling) × Balanced 0 w u
unfolding make_copies safe_free_subscribe_resources malloc free
make_copies-kept env total w h =
    let ms = w.client.msg_handler_list in
    let w1 = (malloc env w).1 in
    let ((done, copies), w2) = copy_loop env total ms w1 in
    ground (arith, copy_loop_lem env total ms w1 h, free_topics_lem copies w2)

pub get_subscribe_safe-kept :
    (env : Env) (w : World)
    → let ((e, found), v) = get_subscribe_safe env w in
      let u = (safe_free_subscribe_resources found v).1 in
      (u.client ≡ w.client) × (u.dangling ≡ w.dangling) × Balanced 0 w u
unfolding get_subscribe_safe
get_subscribe_safe-kept env w = elim (Bool-cases (get_subscribe_total_count w == 0)) [
  | inl z ↦ rw z (unfold safe_free_subscribe_resources in ground arith)
  | inr n ↦
      rw n
        (make_copies-kept env (get_subscribe_total_count w) w (get_subscribe_total_count-length w))
]

-- What `RyanMqttGetConfig` gives the user: a copy of `config`, which `RyanMqttFreeConfigFromGet` frees
-- without a rest, or an error and nothing.
abbrev pub GivesCopy : Env → Config → World → Type 0
GivesCopy env config v =
    (e : Error) × (copy : Option Config) × (u : World) × (get_config env v ≡ some ((e, copy), u))
    × (u.client ≡ v.client)
    × (((e ≡ Error.success) × (copy ≡ some config) × Balanced 0 v (free_config_from_get copy u).1)
        ⊎ ((e ≢ Error.success) × (copy ≡ none) × Balanced 0 v u))
