-- ===== src/Msg/Parted.antt =====
-- What `RyanMqttMsgHandlerFindAndDestroyByPacketId` takes out, said of the fields of the handlers.
use ryan_mqtt.Prelude.{
  All, Bool, Bool-cases, List, [], arith, false, inl, inr, keep, length, reject, refl, strncmp_eq,
  true, ℕ, ◌+◌, ◌∷◌, ◌≡◌, ◌≢◌,
}
use ryan_mqtt.Client.{MsgHandler}
use ryan_mqtt.World.{World}
use ryan_mqtt.Msg.{is_condemned, msg_handler_find_and_destroy_by_packet_id, msg_topic_is_match}
use ryan_mqtt.Msg.Filter.{msg_handler_find_and_destroy_by_packet_id_lem}

-- A handler of the topic with the packet identifier, or, under `skip`, with any other one.
abbrev pub IsAsked : List ℕ → ℕ → Bool → MsgHandler → Type 0
IsAsked topic packet_id false m = (m.topic ≡ topic) × (m.packet_id ≡ packet_id)
IsAsked topic packet_id true m = (m.topic ≡ topic) × (m.packet_id ≢ packet_id)

-- The handlers that are asked for go, the others stay, both in their order.
pub data Parted (topic : List ℕ) (packet_id : ℕ) (skip : Bool)
    : (all gone rest : List MsgHandler) → Type 0 where
  done : Parted topic packet_id skip [] [] []
  goes :
      {m : MsgHandler} {all gone rest : List MsgHandler}
      → IsAsked topic packet_id skip m
      → Parted topic packet_id skip all gone rest
      → Parted topic packet_id skip (m ∷ all) (m ∷ gone) rest
  stays :
      {m : MsgHandler} {all gone rest : List MsgHandler}
      → ¬ IsAsked topic packet_id skip m
      → Parted topic packet_id skip all gone rest
      → Parted topic packet_id skip (m ∷ all) gone (m ∷ rest)

-- On a string without zero bytes the comparison decides equality.
strncmp_eq-equal :
    (xs ys : List ℕ)
    → All (λ x. x ≢ 0) xs
    → length xs ≡ length ys
    → strncmp_eq xs ys ≡ true
    → ys ≡ xs
strncmp_eq-equal [] [] clean e h = refl
strncmp_eq-equal [] (y ∷ ys) clean e h = absurd (omega (arith, e))
strncmp_eq-equal (x ∷ xs) [] clean e h = absurd (omega (arith, e))
strncmp_eq-equal (x ∷ xs) (y ∷ ys) (nz, clean) e h =
    ground (arith, nz, strncmp_eq-equal xs ys clean, e, h)

strncmp_eq-same : (xs : List ℕ) → strncmp_eq xs xs ≡ true
strncmp_eq-same [] = refl
strncmp_eq-same (x ∷ xs) = ground (arith, strncmp_eq-same xs)

module _ (topic : List ℕ) (clean : All (λ x. x ≢ 0) topic) (packet_id : ℕ) where
  msg_topic_is_match-equal :
      (m : MsgHandler) → msg_topic_is_match m topic false ≡ true → m.topic ≡ topic
  unfolding msg_topic_is_match
  msg_topic_is_match-equal m h = ground (arith, strncmp_eq-equal topic m.topic clean, h)

  msg_topic_is_match-same :
      (m : MsgHandler) → m.topic ≡ topic → msg_topic_is_match m topic false ≡ true
  unfolding msg_topic_is_match
  msg_topic_is_match-same m e = rw e (ground (arith, strncmp_eq-same topic))

  is_condemned-IsAsked :
      (skip : Bool) (m : MsgHandler)
      → is_condemned topic packet_id skip m ≡ true
      → IsAsked topic packet_id skip m
  unfolding is_condemned
  is_condemned-IsAsked true m h = ground (arith, msg_topic_is_match-equal m, h)
  is_condemned-IsAsked false m h = ground (arith, msg_topic_is_match-equal m, h)

  IsAsked-is_condemned :
      (skip : Bool) (m : MsgHandler)
      → IsAsked topic packet_id skip m
      → is_condemned topic packet_id skip m ≡ true
  unfolding is_condemned
  IsAsked-is_condemned true m (t, e) = ground (arith, msg_topic_is_match-same m t, e)
  IsAsked-is_condemned false m (t, e) = ground (arith, msg_topic_is_match-same m t, e)

  keep-reject-Parted :
      (skip : Bool) (ms : List MsgHandler)
      → Parted topic packet_id skip ms
          (keep (is_condemned topic packet_id skip) ms)
          (reject (is_condemned topic packet_id skip) ms)
  keep-reject-Parted skip [] = done
  keep-reject-Parted skip (m ∷ ms) = elim (Bool-cases (is_condemned topic packet_id skip m)) [
    | inl y ↦ rw y (goes (is_condemned-IsAsked skip m y) (keep-reject-Parted skip ms))
    | inr n ↦
        rw n (
          stays (λ a. ground (arith, IsAsked-is_condemned skip m a, n))
            (keep-reject-Parted skip ms))
  ]

  -- For a topic without zero bytes, the call takes out of the subscriptions those whose topic is the
  -- given one and whose packet identifier is the given one (under `skip`: is not), and no other,
  -- keeps the order of the rest, frees one block for each that it takes out, and changes nothing else.
  pub msg_handler_find_and_destroy_by_packet_id-Parted :
      (skip : Bool) (w : World)
      → let v = msg_handler_find_and_destroy_by_packet_id topic packet_id skip w in
        (gone : List MsgHandler) × Parted topic packet_id skip w.client.msg_handler_list gone
          v.client.msg_handler_list
        × (v ≡ record w {
          client = record w.client { msg_handler_list = v.client.msg_handler_list };
          frees = w.frees + length gone;
        })
  msg_handler_find_and_destroy_by_packet_id-Parted skip w =
      let p = is_condemned topic packet_id skip in
      let ms = w.client.msg_handler_list in
      rw (msg_handler_find_and_destroy_by_packet_id_lem topic packet_id skip w)
        (keep p ms, keep-reject-Parted skip ms, refl)
