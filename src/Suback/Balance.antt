-- ===== src/Suback/Balance.antt =====
-- SUBACK and UNSUBACK neither leak heap blocks nor free one twice.
use ryan_mqtt.World.{Balanced, World, free}
use ryan_mqtt.Platform.{Env, PacketInfo}
use ryan_mqtt.Prelude.{
  List, [], ap, append_assoc, arith, keep, length, length-append, reject, ℕ, ◌++◌, ◌+◌, ◌==◌, ◌∷◌,
  ◌≡◌, true, Option-cases, false, inl, inr, get_or, length-keep-reject, drop, refl,
}
use ryan_mqtt.Client.{MsgHandler, AckHandler, ack_blocks}
use ryan_mqtt.Suback.{
  drop_waiting, grant_one, grant, grant_loop, suback_handler, release_one, release_loop,
  un_suback_handler, sync_loop, sync_user_ack_handle,
}
use ryan_mqtt.Event.{event_machine, notify}
use ryan_mqtt.Handler.{
  msg_handler_destroy, msg_handler_remove_to_msg_list, ack_list_remove_to_ack_list,
  ack_handler_destroy, ack_list_remove_to_user_ack_list,
}
use ryan_mqtt.Public.{msg_invalid_packet_id, packet_type_suback}
use ryan_mqtt.Msg.{msg_handler_find_and_destroy_by_packet_id, msg_handler_find}
use ryan_mqtt.Msg.Filter.{
  msg_handler_find_and_destroy_by_packet_id_lem, msg_handler_find_and_destroy_by_packet_id-Balanced,
  msg_handler_find-split,
}
use ryan_mqtt.Handler.Balance.{ack_handler_destroy_lem, ack_blocks-append, ack_blocks-keep-reject}
use ryan_mqtt.Ack.{awaits, clear_ack_session, ack_list_add_to_ack_list}
use ryan_mqtt.Ack.Clear.{clear_ack_session_lem}
use ryan_mqtt.Ack.Effect.{ack_list_add_to_ack_list-blocks, ack_list_add_to_ack_list_lem}

-- The walk over the subscriptions drops those that wait for an answer to the packet.
pub drop_waiting_lem :
    (packet_id : ℕ) (before rest : List MsgHandler) (w : World)
    → w.client.msg_handler_list ≡ before ++ rest
    → let v = drop_waiting packet_id before rest w in
      v ≡ record w {
        client = record w.client {
          msg_handler_list = before ++ reject (λ m. packet_id == m.packet_id) rest;
        };
        frees = w.frees + length (keep (λ m. packet_id == m.packet_id) rest);
      }
unfolding drop_waiting msg_handler_destroy free msg_handler_remove_to_msg_list
drop_waiting_lem packet_id before [] w e = ground arith
drop_waiting_lem packet_id before (m ∷ rest) w e = ground (
  arith,
  append_assoc before (m ∷ []) rest,
  append_assoc before (m ∷ []) (reject (λ m. packet_id == m.packet_id) rest),
  drop_waiting_lem packet_id (before ++ m ∷ []) rest w,
  drop_waiting_lem packet_id before rest
      (msg_handler_destroy m (msg_handler_remove_to_msg_list before rest w)),
)

-- What one grant leaves as it was: the awaited acknowledgements, and the balance.
record Grants (w v : World) : Type 0 where
  acks : v.client.ack_handler_list ≡ w.client.ack_handler_list
  user_acks : v.client.user_ack_handler_list ≡ w.client.user_ack_handler_list
  count : v.client.ack_handler_count ≡ w.client.ack_handler_count
  balanced : Balanced 0 w v

module _ (env : Env) where
  grant_one-Grants :
      (asked : MsgHandler) (code : ℕ) (before : List MsgHandler) (m : MsgHandler)
      (after : List MsgHandler) (w : World)
      → w.client.msg_handler_list ≡ before ++ m ∷ after
      → Grants w (grant_one env asked code before m after w)
  unfolding grant_one event_machine notify msg_handler_destroy free msg_handler_remove_to_msg_list
  grant_one-Grants asked code before m after w e = ground (
    arith,
    ap length e,
    length-append before (m ∷ after),
    length-append before after,
    length-append before (record m { qos = code; packet_id = msg_invalid_packet_id } ∷ after),
  )

  grant-Grants :
      (codes : List ℕ) (h : AckHandler) (index : ℕ) (w : World)
      → Grants w (grant env codes h index w).1
  unfolding grant
  grant-Grants codes h index w =
      let asked = h.msg_handler in
      let w1 = msg_handler_find_and_destroy_by_packet_id asked.topic asked.packet_id true w in
      let base = msg_handler_find_and_destroy_by_packet_id_lem asked.topic asked.packet_id true w in
      let even =
        msg_handler_find_and_destroy_by_packet_id-Balanced asked.topic asked.packet_id true w in
      elim (Option-cases (msg_handler_find asked.topic false w1)) [
        | inl e ↦ ground (arith, base, even)
        | inr ((before, m, after), e) ↦ ground (
          arith,
          base,
          even,
          grant_one-Grants asked (get_or codes index 0) before m after w1
              (msg_handler_find-split asked.topic false w1 e),
        )
      ]

  -- Taking a handler off the main list and destroying it keeps the balance.
  drop-Balanced :
      (h : AckHandler) (before rest : List AckHandler) (w : World)
      → w.client.ack_handler_list ≡ before ++ h ∷ rest
      → Balanced 0 w (ack_handler_destroy h (ack_list_remove_to_ack_list before rest w))
  unfolding ack_list_remove_to_ack_list
  drop-Balanced h before rest w e = ground (
    arith,
    ack_handler_destroy_lem h (ack_list_remove_to_ack_list before rest w),
    ap ack_blocks e,
    ack_blocks-append before (h ∷ rest),
    ack_blocks-append before rest,
  )

  drop-list :
      (h : AckHandler) (before rest : List AckHandler) (w : World)
      → (ack_handler_destroy h (ack_list_remove_to_ack_list before rest w)).client.ack_handler_list
        ≡ before ++ rest
  unfolding ack_list_remove_to_ack_list
  drop-list h before rest w =
      ground (arith, ack_handler_destroy_lem h (ack_list_remove_to_ack_list before rest w))

  grant_loop-Balanced :
      (codes : List ℕ) (packet_id index : ℕ) (before rest : List AckHandler) (w : World)
      → w.client.ack_handler_list ≡ before ++ rest
      → Balanced 0 w (grant_loop env codes packet_id index before rest w)
  unfolding grant_loop
  grant_loop-Balanced codes packet_id index before [] w e = omega arith
  grant_loop-Balanced codes packet_id index before (h ∷ rest) w e =
      let (index', w1) = grant env codes h index w in
      let granted = grant-Grants codes h index w in
      let w2 = ack_handler_destroy h (ack_list_remove_to_ack_list before rest w1) in
      ground (
        arith,
        granted,
        append_assoc before (h ∷ []) rest,
        grant_loop-Balanced codes packet_id index (before ++ h ∷ []) rest w,
        drop-Balanced h before rest w1,
        grant_loop-Balanced codes packet_id index' before rest w2 (drop-list h before rest w1),
      )

  -- Whatever SUBACK says, the live blocks change exactly as the blocks that the session owns.
  pub suback_handler-Balanced :
      (info : PacketInfo) (w : World) → Balanced 0 w (suback_handler env info w).1
  unfolding suback_handler
  suback_handler-Balanced info w =
      let d = env.deserialize_ack info in
      let p = awaits packet_type_suback d.packet_id in
      let w1 = clear_ack_session packet_type_suback d.packet_id w in
      ground (
        arith,
        clear_ack_session_lem packet_type_suback d.packet_id w,
        ack_blocks-keep-reject p w.client.ack_handler_list,
        ack_blocks-keep-reject p w.client.user_ack_handler_list,
        drop_waiting_lem d.packet_id [] w1.client.msg_handler_list w1 refl,
        length-keep-reject (λ m. d.packet_id == m.packet_id) w1.client.msg_handler_list,
        grant_loop-Balanced (drop 2 info.remaining_data) d.packet_id 0 [] w.client.ack_handler_list
            w refl,
      )

  release_one-Grants : (h : AckHandler) (w : World) → Grants w (release_one env h w)
  unfolding release_one event_machine notify msg_handler_destroy free msg_handler_remove_to_msg_list
  release_one-Grants h w = elim (Option-cases (msg_handler_find h.msg_handler.topic false w)) [
    | inl e ↦ ground arith
    | inr ((before, m, after), e) ↦
        let split = msg_handler_find-split h.msg_handler.topic false w e in
        ground
          (arith, ap length split, length-append before (m ∷ after), length-append before after)
  ]

  release_loop-Balanced :
      (packet_id : ℕ) (before rest : List AckHandler) (w : World)
      → w.client.ack_handler_list ≡ before ++ rest
      → Balanced 0 w (release_loop env packet_id before rest w)
  unfolding release_loop
  release_loop-Balanced packet_id before [] w e = omega arith
  release_loop-Balanced packet_id before (h ∷ rest) w e =
      let w1 = release_one env h w in
      let w2 = ack_handler_destroy h (ack_list_remove_to_ack_list before rest w1) in
      ground (
        arith,
        release_one-Grants h w,
        append_assoc before (h ∷ []) rest,
        release_loop-Balanced packet_id (before ++ h ∷ []) rest w,
        drop-Balanced h before rest w1,
        release_loop-Balanced packet_id before rest w2 (drop-list h before rest w1),
      )

  pub un_suback_handler-Balanced :
      (info : PacketInfo) (w : World) → Balanced 0 w (un_suback_handler env info w).1
  unfolding un_suback_handler
  un_suback_handler-Balanced info w = ground (
    arith,
    release_loop-Balanced (env.deserialize_ack info).packet_id [] w.client.ack_handler_list w refl,
  )

  sync_loop-Balanced :
      (hs : List AckHandler) (w : World)
      → w.client.user_ack_handler_list ≡ hs
      → Balanced 0 w (sync_loop env hs w)
  unfolding sync_loop ack_list_remove_to_user_ack_list
  sync_loop-Balanced [] w e = omega arith
  sync_loop-Balanced (h ∷ rest) w e =
      let w1 = ack_list_remove_to_user_ack_list [] rest w in
      ground (
        arith,
        ap ack_blocks e,
        ack_list_add_to_ack_list-blocks env h w1,
        ack_list_add_to_ack_list_lem env h w1,
        sync_loop-Balanced rest (ack_list_add_to_ack_list env h w1),
      )

  pub sync_user_ack_handle-Balanced : (w : World) → Balanced 0 w (sync_user_ack_handle env w)
  unfolding sync_user_ack_handle
  sync_user_ack_handle-Balanced w = sync_loop-Balanced w.client.user_ack_handler_list w refl
