-- ===== src/Scan/Resend.antt =====
-- Sending an unanswered publish again.
use ryan_mqtt.Prelude.{List, arith, inl, inr, true, ◌++◌, ◌∷◌, ◌≡◌, ap}
use ryan_mqtt.Public.{repeat_publish_packet}
use ryan_mqtt.Client.{AckHandler, ack_blocks}
use ryan_mqtt.Platform.{Env}
use ryan_mqtt.World.{World, ack_data}
use ryan_mqtt.Event.{event_machine, notify}
use ryan_mqtt.Network.{send_packet}
use ryan_mqtt.Network.Effect.{send_packet-Sends, NoSession, SameSession}
use ryan_mqtt.Handler.Balance.{ack_blocks-append}
use ryan_mqtt.Scan.{count_repeat, marked, put_node, resend}
use ryan_mqtt.Scan.Steps.{Outcome, SameKey, append_is_cons, count_repeat_lem}

module _ (env : Env) (before : List AckHandler) (h : AckHandler) (rest : List AckHandler)
    (w : World) (place : w.client.ack_handler_list ≡ before ++ h ∷ rest) where
  abbrev pub announced : World
  announced =
      event_machine env repeat_publish_packet (ack_data (marked env h))
        (put_node before (marked env h) rest w)

  abbrev pub sent : World
  sent = (send_packet env (marked env h).packet announced).1

  pub announced_lem : announced ≡ record w {
    client = record w.client { ack_handler_list = before ++ marked env h ∷ rest };
    trace = announced.trace;
  }
  unfolding event_machine notify
  announced_lem = ground arith

  marked-SameKey : SameKey h (marked env h)
  marked-SameKey = ground arith

  resend-kept :
      SameSession announced sent
      → resend env before h rest w ≡ count_repeat env before (marked env h) rest sent
  unfolding resend
  resend-kept s =
      let (x, xs, e) = append_is_cons before (marked env h) rest in ground (arith, announced_lem, s)

  pub resend-gone :
      NoSession sent → resend env before h rest w ≡ (marked env h, record sent { dangling = true })
  unfolding resend
  resend-gone s = ground (arith, s)

  same_blocks : ack_blocks (before ++ marked env h ∷ rest) ≡ ack_blocks (before ++ h ∷ rest)
  same_blocks =
      ground
        (arith, ack_blocks-append before (marked env h ∷ rest), ack_blocks-append before (h ∷ rest))

  -- The node is sent again and counted, or a purge freed it.
  pub resend-Outcome :
      let (h', v) = resend env before h rest w in SameKey h h' × Outcome (before ++ h' ∷ rest) w v
  resend-Outcome =
      let sends = send_packet-Sends env (marked env h).packet announced in
      let (h', v) = count_repeat env before (marked env h) rest sent in
      let counted = count_repeat_lem env before (marked env h) rest sent in
      elim (sends.session) [
        | inl same ↦ rw (resend-kept same) (
            ground (
              arith,
              announced_lem,
              same,
              sends,
              counted,
              same_blocks,
              ap ack_blocks place,
              ack_blocks-append before (marked env h ∷ rest),
              ack_blocks-append before (h' ∷ rest),
            ))
        | inr gone ↦
            rw (resend-gone gone)
              (ground (arith, announced_lem, gone, sends, same_blocks, ap ack_blocks place))
      ]
