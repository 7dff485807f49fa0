-- ===== src/Suback/Steady.antt =====
-- SUBACK, UNSUBACK and the move of the user's handlers leave the settings and the state alone.
use ryan_mqtt.Prelude.{
  List, Option-cases, arith, drop, get_or, inl, inr, refl, true, false, ℕ, ◌++◌, ◌∷◌, ◌≡◌, [],
}
use ryan_mqtt.Public.{packet_type_suback}
use ryan_mqtt.Client.{AckHandler, MsgHandler}
use ryan_mqtt.Platform.{Env, PacketInfo}
use ryan_mqtt.World.{World, free}
use ryan_mqtt.World.Steady.{Steady}
use ryan_mqtt.Event.{event_machine, notify}
use ryan_mqtt.Handler.{
  ack_handler_destroy, ack_list_remove_to_ack_list, ack_list_remove_to_user_ack_list,
  msg_handler_destroy, msg_handler_remove_to_msg_list,
}
use ryan_mqtt.Handler.Balance.{ack_handler_destroy_lem}
use ryan_mqtt.Ack.{ack_list_add_to_ack_list, clear_ack_session}
use ryan_mqtt.Ack.Clear.{clear_ack_session_lem}
use ryan_mqtt.Ack.Effect.{ack_list_add_to_ack_list_lem}
use ryan_mqtt.Msg.{msg_handler_find, msg_handler_find_and_destroy_by_packet_id}
use ryan_mqtt.Msg.Filter.{msg_handler_find_and_destroy_by_packet_id_lem}
use ryan_mqtt.Suback.{
  grant, grant_loop, grant_one, release_loop, release_one, suback_handler, sync_loop,
  sync_user_ack_handle, un_suback_handler,
}
use ryan_mqtt.Suback.Balance.{drop_waiting_lem}

module _ (env : Env) where
  grant_one-Steady :
      (asked : MsgHandler) (code : ℕ) (before : List MsgHandler) (m : MsgHandler)
      (after : List MsgHandler) (w : World)
      → Steady w (grant_one env asked code before m after w)
  unfolding grant_one event_machine notify msg_handler_destroy free msg_handler_remove_to_msg_list
  grant_one-Steady asked code before m after w = ground arith

  grant-Steady :
      (codes : List ℕ) (h : AckHandler) (index : ℕ) (w : World)
      → Steady w (grant env codes h index w).1
  unfolding grant
  grant-Steady codes h index w =
      let asked = h.msg_handler in
      let w1 = msg_handler_find_and_destroy_by_packet_id asked.topic asked.packet_id true w in
      let base = msg_handler_find_and_destroy_by_packet_id_lem asked.topic asked.packet_id true w in
      elim (Option-cases (msg_handler_find asked.topic false w1)) [
        | inl e ↦ ground (arith, base)
        | inr ((before, m, after), e) ↦
            ground (arith, base, grant_one-Steady asked (get_or codes index 0) before m after w1)
      ]

  drop-Steady :
      (h : AckHandler) (before rest : List AckHandler) (w : World)
      → Steady w (ack_handler_destroy h (ack_list_remove_to_ack_list before rest w))
  unfolding ack_list_remove_to_ack_list
  drop-Steady h before rest w =
      ground (arith, ack_handler_destroy_lem h (ack_list_remove_to_ack_list before rest w))

  grant_loop-Steady :
      (codes : List ℕ) (packet_id index : ℕ) (before rest : List AckHandler) (w : World)
      → Steady w (grant_loop env codes packet_id index before rest w)
  unfolding grant_loop
  grant_loop-Steady codes packet_id index before [] w = ground arith
  grant_loop-Steady codes packet_id index before (h ∷ rest) w =
      let (index', w1) = grant env codes h index w in
      let w2 = ack_handler_destroy h (ack_list_remove_to_ack_list before rest w1) in
      ground (
        arith,
        grant-Steady codes h index w,
        grant_loop-Steady codes packet_id index (before ++ h ∷ []) rest w,
        drop-Steady h before rest w1,
        grant_loop-Steady codes packet_id index' before rest w2,
      )

  pub suback_handler-Steady :
      (info : PacketInfo) (w : World) → Steady w (suback_handler env info w).1
  unfolding suback_handler
  suback_handler-Steady info w =
      let d = env.deserialize_ack info in
      let w1 = clear_ack_session packet_type_suback d.packet_id w in
      ground (
        arith,
        clear_ack_session_lem packet_type_suback d.packet_id w,
        drop_waiting_lem d.packet_id [] w1.client.msg_handler_list w1 refl,
        grant_loop-Steady (drop 2 info.remaining_data) d.packet_id 0 [] w.client.ack_handler_list w,
      )

  release_one-Steady : (h : AckHandler) (w : World) → Steady w (release_one env h w)
  unfolding release_one event_machine notify msg_handler_destroy free msg_handler_remove_to_msg_list
  release_one-Steady h w = ground arith

  release_loop-Steady :
      (packet_id : ℕ) (before rest : List AckHandler) (w : World)
      → Steady w (release_loop env packet_id before rest w)
  unfolding release_loop
  release_loop-Steady packet_id before [] w = ground arith
  release_loop-Steady packet_id before (h ∷ rest) w =
      let w1 = release_one env h w in
      let w2 = ack_handler_destroy h (ack_list_remove_to_ack_list before rest w1) in
      ground (
        arith,
        release_one-Steady h w,
        release_loop-Steady packet_id (before ++ h ∷ []) rest w,
        drop-Steady h before rest w1,
        release_loop-Steady packet_id before rest w2,
      )

  pub un_suback_handler-Steady :
      (info : PacketInfo) (w : World) → Steady w (un_suback_handler env info w).1
  unfolding un_suback_handler
  un_suback_handler-Steady info w = ground (
    arith,
    release_loop-Steady (env.deserialize_ack info).packet_id [] w.client.ack_handler_list w,
  )

  -- The move changes the lists, the count and the trace alone.
  sync_loop_lem :
      (hs : List AckHandler) (w : World)
      → let v = sync_loop env hs w in
        v ≡ record w {
          client = record w.client {
            ack_handler_list = v.client.ack_handler_list;
            user_ack_handler_list = v.client.user_ack_handler_list;
            ack_handler_count = v.client.ack_handler_count;
          };
          trace = v.trace;
        }
  unfolding sync_loop ack_list_remove_to_user_ack_list
  sync_loop_lem [] w = ground arith
  sync_loop_lem (h ∷ rest) w =
      let w1 = ack_list_remove_to_user_ack_list [] rest w in
      ground (
        arith,
        ack_list_add_to_ack_list_lem env h w1,
        sync_loop_lem rest (ack_list_add_to_ack_list env h w1),
      )

  pub sync_user_ack_handle_lem :
      (w : World)
      → let v = sync_user_ack_handle env w in
        v ≡ record w {
          client = record w.client {
            ack_handler_list = v.client.ack_handler_list;
            user_ack_handler_list = v.client.user_ack_handler_list;
            ack_handler_count = v.client.ack_handler_count;
          };
          trace = v.trace;
        }
  unfolding sync_user_ack_handle
  sync_user_ack_handle_lem w = sync_loop_lem w.client.user_ack_handler_list w
