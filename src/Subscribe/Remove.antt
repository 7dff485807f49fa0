-- ===== src/Subscribe/Remove.antt =====
-- Putting topics on the list of subscriptions, and taking them off again.
use ryan_mqtt.Prelude.{
  All, Bool, ap, List, [], append-nil, append_assoc, arith, false, inl, inr, map, refl, reject,
  reject-append, strncmp_eq, sym, true, ℕ, ◌++◌, ◌+◌, ◌==◌, ◌∷◌, ◌∙◌, ◌≡◌,
}
use ryan_mqtt.Client.{MsgHandler}
use ryan_mqtt.Platform.{Env, SubscribeInfo}
use ryan_mqtt.World.{World, malloc}
use ryan_mqtt.Handler.{msg_handler_add_to_msg_list, msg_handler_create}
use ryan_mqtt.Handler.Create.{msg_handler_create_cases}
use ryan_mqtt.Msg.{is_condemned, msg_handler_find_and_destroy_by_packet_id, msg_topic_is_match}
use ryan_mqtt.Msg.Filter.{msg_handler_find_and_destroy_by_packet_id_lem}
use ryan_mqtt.Subscribe.{add_topics, remove_topics}
use ryan_mqtt.Subscribe.Await.{topic_handler}

-- What the removal leaves of a list of subscriptions.
abbrev pub removed : ℕ → List SubscribeInfo → List MsgHandler → List MsgHandler
removed packet_id [] ms = ms
removed packet_id (s ∷ rest) ms =
    removed packet_id rest (reject (is_condemned s.topic_filter packet_id false) ms)

pub remove_topics_lem :
    (packet_id : ℕ) (infos : List SubscribeInfo) (w : World)
    → let v = remove_topics packet_id infos w in
      v ≡ record w {
        frees = v.frees;
        client = record w.client {
          msg_handler_list = removed packet_id infos w.client.msg_handler_list;
        };
      }
unfolding remove_topics
remove_topics_lem packet_id [] w = refl
remove_topics_lem packet_id (s ∷ rest) w =
    let v = msg_handler_find_and_destroy_by_packet_id s.topic_filter packet_id false w in
    ground (
      arith,
      msg_handler_find_and_destroy_by_packet_id_lem s.topic_filter packet_id false w,
      remove_topics_lem packet_id rest v,
    )

strncmp_eq_refl : (xs : List ℕ) → strncmp_eq xs xs ≡ true
strncmp_eq_refl [] = refl
strncmp_eq_refl (x ∷ xs) = ground (arith, strncmp_eq_refl xs)

reject_swap :
    (p q : MsgHandler → Bool) (ms : List MsgHandler)
    → reject p (reject q ms) ≡ reject q (reject p ms)
reject_swap p q [] = refl
reject_swap p q (m ∷ ms) = ground (arith, reject_swap p q ms)

module _ (packet_id : ℕ) where
  pub removed-nil : (infos : List SubscribeInfo) → removed packet_id infos [] ≡ []
  removed-nil [] = refl
  removed-nil (s ∷ rest) = removed-nil rest

  pub removed-append :
      (infos : List SubscribeInfo) (xs ys : List MsgHandler)
      → removed packet_id infos (xs ++ ys)
        ≡ removed packet_id infos xs ++ removed packet_id infos ys
  removed-append [] xs ys = refl
  removed-append (s ∷ rest) xs ys =
      let p = is_condemned s.topic_filter packet_id false in
      rw (reject-append p xs ys) (removed-append rest (reject p xs) (reject p ys))

  -- A handler of another identifier stays.
  reject-old :
      (topic : List ℕ) (ms : List MsgHandler)
      → All (λ m. (m.packet_id == packet_id) ≡ false) ms
      → reject (is_condemned topic packet_id false) ms ≡ ms
  unfolding is_condemned
  reject-old topic [] a = refl
  reject-old topic (m ∷ ms) (a, others) = ground (arith, reject-old topic ms others)

  pub removed-old :
      (infos : List SubscribeInfo) (ms : List MsgHandler)
      → All (λ m. (m.packet_id == packet_id) ≡ false) ms
      → removed packet_id infos ms ≡ ms
  removed-old [] ms a = refl
  removed-old (s ∷ rest) ms a = rw (reject-old s.topic_filter ms a) (removed-old rest ms a)

  -- The order in which the topics are taken off does not matter.
  removed-reject :
      (p : MsgHandler → Bool) (infos : List SubscribeInfo) (ms : List MsgHandler)
      → removed packet_id infos (reject p ms) ≡ reject p (removed packet_id infos ms)
  removed-reject p [] ms = refl
  removed-reject p (s ∷ rest) ms =
      let q = is_condemned s.topic_filter packet_id false in
      rw (reject_swap q p ms) (removed-reject p rest (reject q ms))

  reject-head :
      (s : SubscribeInfo) (ms : List MsgHandler)
      → let p = is_condemned s.topic_filter packet_id false in
        reject p (topic_handler packet_id s ∷ ms) ≡ reject p ms
  unfolding is_condemned msg_topic_is_match
  reject-head s ms = ground (arith, strncmp_eq_refl s.topic_filter)

  -- Nothing is left of the topics that were put on the list, nor of their duplicates.
  pub removed-new :
      (done rest : List SubscribeInfo)
      → removed packet_id (done ++ rest) (map (topic_handler packet_id) done) ≡ []
  removed-new [] rest = removed-nil rest
  removed-new (s ∷ done) rest =
      let p = is_condemned s.topic_filter packet_id false in
      let ms = map (topic_handler packet_id) done in
      ap (removed packet_id (done ++ rest)) (reject-head s ms)
      ∙ removed-reject p (done ++ rest) ms
      ∙ ap (reject p) (removed-new done rest)

-- The world with the first ones of the topics more on the list of subscriptions.
pub data Added (packet_id : ℕ) (infos : List SubscribeInfo) (w v : World) (r : Bool) : Type 0 where
  added :
      (done rest : List SubscribeInfo)
      → infos ≡ done ++ rest
      → (r ≡ true → rest ≡ [])
      → v.client.msg_handler_list ≡ w.client.msg_handler_list ++ map (topic_handler packet_id) done
      → v ≡ record w {
        tick = v.tick;
        mallocs = v.mallocs;
        client = record w.client { msg_handler_list = v.client.msg_handler_list };
      }
      → Added packet_id infos w v r

Added-cons :
    (packet_id : ℕ) (s : SubscribeInfo) (infos : List SubscribeInfo) (w v : World) (r : Bool)
    → let m = topic_handler packet_id s in
      let w1 : World = record w { tick = w.tick + 1; mallocs = w.mallocs + 1 } in
      Added packet_id infos (msg_handler_add_to_msg_list m w1) v r
      → Added packet_id (s ∷ infos) w v r
unfolding msg_handler_add_to_msg_list
Added-cons packet_id s infos w v r (added done rest split all place same) =
    let m = topic_handler packet_id s in
    added (s ∷ done) rest (ground (arith, split)) all
      (ground (
        arith,
        place,
        append_assoc w.client.msg_handler_list (m ∷ []) (map (topic_handler packet_id) done),
      ))
      (ground (arith, same))

pub add_topics-Added :
    (env : Env) (packet_id : ℕ) (infos : List SubscribeInfo) (w : World)
    → let (r, v) = add_topics env packet_id infos w in Added packet_id infos w v r
unfolding add_topics msg_handler_create malloc
add_topics-Added env packet_id [] w = added [] [] refl (λ t. refl) (sym (append-nil _)) refl
add_topics-Added env packet_id (s ∷ rest) w =
    let w1 : World = record w { tick = w.tick + 1; mallocs = w.mallocs + 1 } in
    let m = topic_handler packet_id s in
    elim (msg_handler_create_cases env s.topic_filter packet_id s.qos 0 w) [
      | inl (e, f) ↦
          rw (e, f)
            (added [] (s ∷ rest) refl (λ t. absurd (ground (arith, t))) (sym (append-nil _)) refl)
      | inr (e, f) ↦
          rw (e, f)
            (Added-cons packet_id s rest w _ _
              (add_topics-Added env packet_id rest (msg_handler_add_to_msg_list m w1)))
    ]
