-- ===== src/Scan/Timeout.antt =====
-- The cases of an acknowledgement whose time is up.
use ryan_mqtt.Prelude.{
  Bool-cases, List, [], append_assoc, refl, ap, arith, inl, inr, length-keep-reject, false, ◌++◌,
  ◌==◌, ◌∷◌, ◌≡◌,
}
use ryan_mqtt.Public.{
  packet_type_suback, packet_type_unsuback, subscribed_failed, un_subscribed_failed,
}
use ryan_mqtt.Client.{AckHandler, ack_blocks}
use ryan_mqtt.Platform.{Env}
use ryan_mqtt.World.{World, msg_data}
use ryan_mqtt.Event.{event_machine, notify}
use ryan_mqtt.Handler.{ack_list_remove_to_ack_list}
use ryan_mqtt.Handler.Balance.{ack_blocks-append, ack_handler_destroy_lem}
use ryan_mqtt.Msg.{is_condemned, msg_handler_find_and_destroy_by_packet_id}
use ryan_mqtt.Msg.Filter.{msg_handler_find_and_destroy_by_packet_id_lem}
use ryan_mqtt.Scan.{fail_subscribe, fail_unsubscribe, handle_timeout, is_publish_type, resend}
use ryan_mqtt.Scan.Resend.{resend-Outcome}
use ryan_mqtt.Scan.Steps.{Outcome, SameKey}

module _ (env : Env) (before : List AckHandler) (h : AckHandler) (rest : List AckHandler)
    (w : World) (place : w.client.ack_handler_list ≡ before ++ h ∷ rest) where
  fail_subscribe-Outcome : Outcome (before ++ rest) w (fail_subscribe env before h rest w)
  unfolding fail_subscribe event_machine notify ack_list_remove_to_ack_list
  fail_subscribe-Outcome =
      let m = h.msg_handler in
      let p = is_condemned m.topic m.packet_id false in
      let w1 = msg_handler_find_and_destroy_by_packet_id m.topic m.packet_id false w in
      let w2 = event_machine env subscribed_failed (msg_data m) w1 in
      ground (
        arith,
        msg_handler_find_and_destroy_by_packet_id_lem m.topic m.packet_id false w,
        ack_handler_destroy_lem h (ack_list_remove_to_ack_list before rest w2),
        length-keep-reject p w.client.msg_handler_list,
        ap ack_blocks place,
        ack_blocks-append before (h ∷ rest),
        ack_blocks-append before rest,
      )

  fail_unsubscribe-Outcome : Outcome (before ++ rest) w (fail_unsubscribe env before h rest w)
  unfolding fail_unsubscribe event_machine notify ack_list_remove_to_ack_list
  fail_unsubscribe-Outcome =
      let w1 = event_machine env un_subscribed_failed (msg_data h.msg_handler) w in
      ground (
        arith,
        ack_handler_destroy_lem h (ack_list_remove_to_ack_list before rest w1),
        ap ack_blocks place,
        ack_blocks-append before (h ∷ rest),
        ack_blocks-append before rest,
      )

-- What became of the node: it is there with the same key, or it was not a publish.
pub data Became (h : AckHandler) (before : List AckHandler) : List AckHandler → Type 0 where
  kept :
      (h' : AckHandler) {before' : List AckHandler}
      → SameKey h h'
      → before' ≡ before ++ h' ∷ []
      → Became h before before'
  dropped :
      {before' : List AckHandler}
      → is_publish_type h.packet_type ≡ false
      → before' ≡ before
      → Became h before before'

module _ (env : Env) (before : List AckHandler) (h : AckHandler) (rest : List AckHandler)
    (w : World) (place : w.client.ack_handler_list ≡ before ++ h ∷ rest) where
  pub handle_timeout-Outcome :
      let (before', v) = handle_timeout env before h rest w in
      Became h before before' × Outcome (before' ++ rest) w v
  unfolding handle_timeout
  handle_timeout-Outcome = elim (Bool-cases (is_publish_type h.packet_type)) [
    | inl publish ↦
        let (h', v) = resend env before h rest w in
        let (key, outcome) = resend-Outcome env before h rest w place in
        rw publish (kept h' key refl, rw (append_assoc before (h' ∷ []) rest) outcome)
    | inr other ↦ elim (Bool-cases (h.packet_type == packet_type_suback)) [
      | inl suback ↦
          rw (other, suback) (dropped other refl, fail_subscribe-Outcome env before h rest w place)
      | inr no_suback ↦ elim (Bool-cases (h.packet_type == packet_type_unsuback)) [
        | inl unsuback ↦
            rw (other, no_suback, unsuback)
              (dropped other refl, fail_unsubscribe-Outcome env before h rest w place)
        | inr neither ↦
            rw (other, no_suback, neither)
              (kept h (ground arith) refl, rw (append_assoc before (h ∷ []) rest) (ground arith))
      ]
    ]
  ]
