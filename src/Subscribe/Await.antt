-- ===== src/Subscribe/Await.antt =====
-- What a topic leaves on the user's list.
use ryan_mqtt.Prelude.{
  All, Bool, ap, append-nil, append_assoc, map, refl, sym, ◌++◌, ◌∷◌, List, [], arith, false, inl,
  inr, true, ℕ, ◌+◌, ◌≡◌, ◌⊎◌,
}
use ryan_mqtt.Client.{AckHandler, MsgHandler}
use ryan_mqtt.Platform.{Env, SubscribeInfo}
use ryan_mqtt.World.{World, free, malloc}
use ryan_mqtt.Timer.{timer_cutdown}
use ryan_mqtt.Handler.{
  ack_handler_create, ack_list_add_to_user_ack_list, msg_handler_create, msg_handler_destroy,
}
use ryan_mqtt.Handler.Create.{new_ack_handler}
use ryan_mqtt.Subscribe.{await_topic, await_topics}
use ryan_mqtt.Ack.{awaits}

-- The message handler that stands for a topic.
abbrev pub topic_handler : ℕ → SubscribeInfo → MsgHandler
topic_handler packet_id s = record {
  user_data = 0;
  topic = s.topic_filter;
  qos = s.qos;
  packet_id = packet_id;
}

-- The handler that waits for the answer.
abbrev pub awaited_handler : Env → ℕ → ℕ → SubscribeInfo → World → AckHandler
awaited_handler env packet_type packet_id s w =
    new_ack_handler env packet_type packet_id [] (topic_handler packet_id s) false w

-- Both handlers are there, or neither.
pub await_topic_cases :
    (env : Env) (packet_type packet_id : ℕ) (s : SubscribeInfo) (w : World)
    → let (r, v) = await_topic env packet_type packet_id s w in
      let w1 : World = record w { tick = w.tick + 1; mallocs = w.mallocs + 1 } in
      ((r ≡ true)
        × (v
            ≡ ack_list_add_to_user_ack_list
                (awaited_handler env packet_type packet_id s w1)
                (record w { tick = w.tick + 3; mallocs = w.mallocs + 2 })))
      ⊎ ((r ≡ false)
          × ((v ≡ record w { tick = w.tick + 1 })
              ⊎ (v ≡ record w { tick = w.tick + 2; mallocs = w.mallocs + 1; frees = w.frees + 1 })))
unfolding await_topic msg_handler_destroy free msg_handler_create ack_handler_create malloc
    timer_cutdown
await_topic_cases env packet_type packet_id s w = ground arith

-- The world with the handlers `new` more on the user's list, all of them for this key.
pub data Awaited (packet_type packet_id : ℕ) (infos : List SubscribeInfo) (w v : World) (r : Bool)
    : Type 0 where
  awaited :
      (new : List AckHandler)
      → v.client.user_ack_handler_list ≡ w.client.user_ack_handler_list ++ new
      → All (λ h. awaits packet_type packet_id h ≡ true) new
      → (r ≡ true → map (λ h. h.msg_handler) new ≡ map (topic_handler packet_id) infos)
      → v ≡ record w {
        tick = v.tick;
        mallocs = v.mallocs;
        frees = v.frees;
        client = record w.client { user_ack_handler_list = v.client.user_ack_handler_list };
      }
      → Awaited packet_type packet_id infos w v r

Awaited-cons :
    (env : Env) (packet_type packet_id : ℕ) (s : SubscribeInfo) (rest : List SubscribeInfo)
    (w v : World) (r : Bool)
    → (await_topic env packet_type packet_id s w).0 ≡ true
    → Awaited packet_type packet_id rest (await_topic env packet_type packet_id s w).1 v r
    → Awaited packet_type packet_id (s ∷ rest) w v r
unfolding ack_list_add_to_user_ack_list awaits
Awaited-cons env packet_type packet_id s rest w v r e (awaited new a all m same) =
    let h =
      awaited_handler env packet_type packet_id s
        (record w { tick = w.tick + 1; mallocs = w.mallocs + 1 }) in
    let c = await_topic_cases env packet_type packet_id s w in
    awaited (h ∷ new) (ground (arith, c, append_assoc w.client.user_ack_handler_list (h ∷ []) new))
      (ground arith, all) (λ t. ap (λ ms. h.msg_handler ∷ ms) (m t)) (ground (arith, c))

pub await_topics-Awaited :
    (env : Env) (packet_type packet_id : ℕ) (infos : List SubscribeInfo) (w : World)
    → let (r, v) = await_topics env packet_type packet_id infos w in
      Awaited packet_type packet_id infos w v r
unfolding await_topics
await_topics-Awaited env packet_type packet_id [] w =
    awaited [] (sym (append-nil _)) tt (λ _. refl) refl
await_topics-Awaited env packet_type packet_id (s ∷ rest) w =
    let w2 = (await_topic env packet_type packet_id s w).1 in
    let none_more = append-nil w.client.user_ack_handler_list in
    elim (await_topic_cases env packet_type packet_id s w) [
      | inr (e, f) ↦ rw e (
          awaited [] (ground (arith, f, none_more)) tt (λ t. absurd (ground (arith, t)))
            (ground (arith, f)))
      | inl (e, f) ↦ rw e (
          Awaited-cons env packet_type packet_id s rest w _ _ e
            (await_topics-Awaited env packet_type packet_id rest w2))
    ]
