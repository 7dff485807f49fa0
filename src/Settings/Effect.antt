-- ===== src/Settings/Effect.antt =====
-- What setting the configuration and the will does, on every path.
use ryan_mqtt.Prelude.{
  Bool, Bool-cases, refl, List, Option, arith, false, inl, inr, none, not, some, true, leb, ltb,
  ◌||◌, ℕ, ◌+◌, ◌≡◌, ◌≢◌, ◌⊎◌, ◌≤◌, ◌&&◌,
}
use ryan_mqtt.Public.{Error, max_payload_len, qos2}
use ryan_mqtt.Client.{Config, LwtOptions}
use ryan_mqtt.Platform.{Env}
use ryan_mqtt.World.{World, free, malloc}
use ryan_mqtt.Session.{get_client_state}
use ryan_mqtt.Packet.{is_ok}
use ryan_mqtt.Keepalive.{is_connected}
use ryan_mqtt.Publish.{is_null, text_of}
use ryan_mqtt.Thread.{purge_config}
use ryan_mqtt.Thread.Destroy.{client_blocks, config_blocks, purge_config_lem}
use ryan_mqtt.Settings.{
  config_deep_copy, drop_will, dup_optional, empty_will, fill_will, is_invalid, is_valid_config,
  open_will, put_will, will_payload, set_config, set_lwt,
}
use ryan_mqtt.Settings.Copy.{config_deep_copy_cases, dup_optional_cases}

-- The live heap blocks change exactly as those that the client owns.
abbrev pub Accounted : World → World → Type 0
Accounted w v =
    v.mallocs + w.frees + client_blocks w.client ≡ w.mallocs + v.frees + client_blocks v.client

-- The copy takes the place of the configuration.
replaced :
    (config : Config) (w w1 : World)
    → w1 ≡ record w { tick = w1.tick; mallocs = w.mallocs + config_blocks config }
    → let w2 = purge_config w1.client.config w1 in
      let v : World = record w2 { client = record w2.client { config = config } } in
      (v.client ≡ record w.client { config = config }) × Accounted w v
replaced config w w1 f = ground (arith, purge_config_lem w1.client.config w1)

-- `RyanMqttSetConfig` is all or nothing: it answers success, and then the state and the parameters
-- were valid and the client has exactly the given configuration and is otherwise as it was; or it
-- does not, and the client is as it was. Either way the number of live heap blocks changes
-- exactly as the number of those that the client owns, also when the memory is gone between two
-- strings.
pub set_config_lem :
    (env : Env) (config : Config) (w : World)
    → let (e, v) = set_config env config w in
      (((e ≡ Error.success)
          × (is_invalid (get_client_state w) ≡ false)
          × (is_valid_config config ≡ true)
          × (v.client ≡ record w.client { config = config }))
        ⊎ ((e ≢ Error.success) × (v.client ≡ w.client)))
      × Accounted w v
unfolding set_config get_client_state
set_config_lem env config w =
    let ((e, copy), w1) = config_deep_copy env config w in
    elim (Bool-cases (is_invalid w.client.client_state)) [
      | inl n ↦ simp n (inr (λ t. ground (arith, t), refl), refl)
      | inr y ↦ elim (Bool-cases (is_valid_config config)) [
        | inr n ↦ simp (y, n) (inr (λ t. ground (arith, t), refl), refl)
        | inl y' ↦ elim (config_deep_copy_cases env config w) [
          | inl (ok, c, f) ↦
              let (client, balance) = replaced config w w1 f in
              simp (y, y', ok, c) (inl (refl, refl, refl, client), balance)
          | inr (bad, f, g) ↦
              let err : is_ok e ≡ false = ground (arith, bad) in
              simp (y, y', err) (inr (bad, ground (arith, f)), ground (arith, f, g))
        ]
      ]
    ]

-- The will that was asked for.
abbrev pub asked_will : List ℕ → Option (List ℕ) → ℕ → ℕ → Bool → LwtOptions
asked_will topic payload payload_len qos retain = record {
  topic = some topic;
  payload = will_payload payload payload_len;
  payload_len = payload_len;
  qos = qos;
  lwt_flag = true;
  retain = retain;
}

-- With the empty will in place, whose block the client owns.
fill_will_lem :
    (env : Env) (topic : List ℕ) (payload : Option (List ℕ)) (payload_len qos : ℕ) (retain : Bool)
    (w : World)
    → w.client.lwt_options ≡ some empty_will
    → let (e, v) = fill_will env topic payload payload_len qos retain w in
      (((e ≡ Error.success)
          × (v.client ≡ record w.client {
            lwt_options = some (asked_will topic payload payload_len qos retain);
          }))
        ⊎ ((e ≢ Error.success) × (v.client ≡ record w.client { lwt_options = none })))
      × Accounted w v
unfolding fill_will drop_will free dup_optional
fill_will_lem env topic payload payload_len qos retain w place =
    let p = will_payload payload payload_len in
    let w1 = (dup_optional env p w).1 in
    ground (arith, dup_optional_cases env p w, dup_optional_cases env (some topic) w1)

-- In the end there is a block, and no strings.
open_will_lem :
    (env : Env) (w : World)
    → let (r, v) = open_will env w in
      ((r ≡ true) × Accounted w (put_will (some empty_will) v) × (v.client ≡ w.client))
      ⊎ ((r ≡ false) × (w.client.lwt_options ≡ none) × (v.client ≡ w.client) × Accounted w v)
unfolding open_will malloc free
open_will_lem env w = ground arith

-- The parameters that `RyanMqttSetLwt` takes.
abbrev pub IsValidWill : (topic payload : Option (List ℕ)) → (payload_len qos : ℕ) → Type 0
IsValidWill topic payload payload_len qos =
    (is_null topic ≡ false)
    × (payload_len ≤ max_payload_len)
    × (qos ≤ qos2)
    × ((payload_len ≡ 0) ⊎ (is_null payload ≡ false))

pub set_lwt_lem :
    (env : Env) (topic payload : Option (List ℕ)) (payload_len qos : ℕ) (retain : Bool) (w : World)
    → let (e, v) = set_lwt env topic payload payload_len qos retain w in
      (((e ≡ Error.failed)
          × (is_null topic ≡ false)
          × (is_connected (get_client_state w) ≡ true)
          × (v ≡ w))
        ⊎ ((e ≡ Error.param_invalid)
            × ((is_null topic ≡ true) ⊎ (is_connected (get_client_state w) ≡ false))
            × ¬ IsValidWill topic payload payload_len qos
            × (v ≡ w))
        ⊎ (IsValidWill topic payload payload_len qos
            × (is_connected (get_client_state w) ≡ false)
            × (((e ≡ Error.success)
                  × (v.client ≡ record w.client {
                    lwt_options = some (asked_will (text_of topic) payload payload_len qos retain);
                  }))
                ⊎ ((e ≢ Error.success) × (v.client ≡ record w.client { lwt_options = none })))))
      × Accounted w v
unfolding set_lwt get_client_state
set_lwt_lem env topic payload payload_len qos retain w =
    let w1 = (open_will env w).1 in
    elim (Bool-cases (is_null topic)) [
      | inl n ↦ simp n (inr (inl (refl, inl refl, (λ v. ground (arith, v, n)), refl)), refl)
      | inr a ↦ elim (Bool-cases (is_connected w.client.client_state)) [
        | inl n ↦ simp (a, n) (inl (refl, refl, refl, refl), refl)
        | inr b ↦ elim (Bool-cases (not (leb payload_len max_payload_len) || not (leb qos qos2))) [
          | inl n ↦
              simp (a, b, n) (inr (inl (refl, inr refl, (λ v. ground (arith, v, n)), refl)), refl)
          | inr c ↦ elim (Bool-cases (ltb 0 payload_len && is_null payload)) [
            | inl n ↦
                simp (a, b, c, n)
                  (inr (inl (refl, inr refl, (λ v. ground (arith, v, n)), refl)), refl)
            | inr d ↦ ground (
              arith,
              a,
              b,
              c,
              d,
              open_will_lem env w,
              fill_will_lem env (text_of topic) payload payload_len qos retain
                  (put_will (some empty_will) w1),
            )
          ]
        ]
      ]
    ]
