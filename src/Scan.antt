-- ===== src/Scan.antt =====
-- mqttclient/RyanMqttThread.c, lines 84 to 244: the scan of the awaited acknowledgements.
-- Nothing but the loop itself works on the list while it runs, except that a lost connection may
-- purge the session. The list holds the node that the loop stands at, so an empty list after
-- `RyanMqttSendPacket` means that the node was freed.
pub mod Steps
pub mod Resend
pub mod Timeout
pub mod Loop
pub mod Freed
use ryan_mqtt.Prelude.{
  Bool, List, [], false, if◌then◌else◌, leb, ltb, not, true, ℕ, ◌%◌, ◌&&◌, ◌++◌, ◌+◌, ◌-◌, ◌==◌,
  ◌^◌, ◌||◌, ◌∷◌,
}
use ryan_mqtt.Public.{
  ack_repeat_count_warning, packet_type_puback, packet_type_pubcomp, packet_type_pubrec,
  packet_type_pubrel, packet_type_suback, packet_type_unsuback, repeat_publish_packet,
  subscribed_failed, un_subscribed_failed,
}
use ryan_mqtt.Client.{AckHandler, Timer}
use ryan_mqtt.Platform.{Env}
use ryan_mqtt.World.{M, World, ack_data, msg_data}
use ryan_mqtt.Timer.{timer_cutdown, timer_remain}
use ryan_mqtt.Handler.{ack_handler_destroy, ack_list_remove_to_ack_list}
use ryan_mqtt.Session.{get_client_state}
use ryan_mqtt.Event.{event_machine}
use ryan_mqtt.Msg.{msg_handler_find_and_destroy_by_packet_id}
use ryan_mqtt.Network.{send_packet}
use ryan_mqtt.Keepalive.{is_connected}

abbrev pub is_publish_type : ℕ → Bool
is_publish_type t =
    t == packet_type_puback
    || t == packet_type_pubrec
    || t == packet_type_pubrel
    || t == packet_type_pubcomp

abbrev pub is_nil : List ℕ → Bool
is_nil [] = true
is_nil (x ∷ xs) = false

-- The node in place of the one that the loop stands at.
abbrev pub put_node :
    (before : List AckHandler) → AckHandler → (rest : List AckHandler) → World → World
put_node before h rest w = record w {
  client = record w.client { ack_handler_list = before ++ h ∷ rest };
}

-- The packet is a repeated one from its second sending on.
abbrev pub marked : Env → AckHandler → AckHandler
marked env h =
    if h.repeat_count == 0 && not (is_nil h.packet)
    then record h { packet = env.update_duplicate_publish_flag h.packet }
    else h

-- The end of the first case: the timer, the count of repetitions and its warning. The answer is
-- the node with its new contents.
unfoldable pub count_repeat :
    Env → (before : List AckHandler) → AckHandler → (rest : List AckHandler) → M AckHandler
count_repeat env before h rest w =
    let (timer, w1) = timer_cutdown env w.client.config.ack_timeout w in
    let h' = record h { timer = timer; repeat_count = (h.repeat_count + 1) % 2 ^ 16 } in
    let w2 = put_node before h' rest w1 in
    if leb w2.client.config.ack_handler_repeat_count_warning h'.repeat_count
    then (h', event_machine env ack_repeat_count_warning (ack_data h') w2)
    else (h', w2)

-- The case of a publish that was not answered: it is sent again.
unfoldable pub resend :
    Env → (before : List AckHandler) → AckHandler → (rest : List AckHandler) → M AckHandler
resend env before h rest w =
    let h1 = marked env h in
    let w1 = event_machine env repeat_publish_packet (ack_data h1) (put_node before h1 rest w) in
    let w2 = (send_packet env h1.packet w1).1 in
    elim w2.client.ack_handler_list [
      | [] ↦ (h1, record w2 { dangling = true })
      | x ∷ xs ↦ count_repeat env before h1 rest w2
    ]

-- The cases of a subscription and of its removal that were not answered.
unfoldable pub fail_subscribe :
    Env → (before : List AckHandler) → AckHandler → (rest : List AckHandler) → World → World
fail_subscribe env before h rest w =
    let m = h.msg_handler in
    let w1 = msg_handler_find_and_destroy_by_packet_id m.topic m.packet_id false w in
    let w2 = event_machine env subscribed_failed (msg_data m) w1 in
    ack_handler_destroy h (ack_list_remove_to_ack_list before rest w2)

unfoldable pub fail_unsubscribe :
    Env → (before : List AckHandler) → AckHandler → (rest : List AckHandler) → World → World
fail_unsubscribe env before h rest w =
    let w1 = event_machine env un_subscribed_failed (msg_data h.msg_handler) w in
    ack_handler_destroy h (ack_list_remove_to_ack_list before rest w1)

-- The `switch`: the nodes before the next one, and the state. Any other packet type only trips an
-- assertion, which is off in a release.
unfoldable pub handle_timeout :
    Env → (before : List AckHandler) → AckHandler → (rest : List AckHandler) → M (List AckHandler)
handle_timeout env before h rest w =
    if is_publish_type h.packet_type
    then (let (h', v) = resend env before h rest w in (before ++ h' ∷ [], v))
    else if h.packet_type == packet_type_suback
    then (before, fail_subscribe env before h rest w)
    else if h.packet_type == packet_type_unsuback
    then (before, fail_unsubscribe env before h rest w)
    else (before ++ h ∷ [], w)

-- The loop, with the time to the next scan. It cannot go on from a freed node.
scan_loop : Env → Bool → Timer → (before rest : List AckHandler) → ℕ → M ℕ
scan_loop env wait window before [] throttle w = (throttle, w)
scan_loop env wait window before (h ∷ rest) throttle w =
    let (left, w1) = timer_remain env window w in
    let (ack_left, w2) = timer_remain env h.timer w1 in
    let throttle' = if not (ack_left == 0) && ltb ack_left throttle then ack_left else throttle in
    let (before', w3) = handle_timeout env before h rest w2 in
    let handled = scan_loop env wait window before' rest throttle' w3 in
    let waiting = scan_loop env wait window (before ++ h ∷ []) rest throttle' w2 in
    let skipped = scan_loop env wait window (before ++ h ∷ []) rest throttle w in
    if not (is_connected (get_client_state w))
    then skipped
    else if left == 0
    then (throttle, w1)
    else if not (ack_left == 0) && wait
    then waiting
    else if w3.dangling
    then (throttle', w3)
    else handled

-- Behind the loop: the next scan waits, or the next receive is short.
end_scan : Env → Timer → ℕ → World → World
end_scan env window throttle w =
    let (left, w1) = timer_remain env window w in
    let (timer, w2) = timer_cutdown env throttle w1 in
    if not (left == 0)
    then record w2 {
      client = record w2.client { ack_scan_throttle_timer = timer; pending_ack_flag = false };
    }
    else record w1 { client = record w1.client { pending_ack_flag = true } }

-- `RyanMqttAckListScan`
pub ack_list_scan : Env → Bool → World → World
unfolding get_client_state
ack_list_scan env wait w =
    let (throttled, w1) = timer_remain env w.client.ack_scan_throttle_timer w in
    let recv_timeout = w1.client.config.recv_timeout in
    let (window, w2) =
      timer_cutdown env (if ltb 100 recv_timeout then recv_timeout - 100 else recv_timeout) w1 in
    let (throttle, w3) = scan_loop env wait window [] w2.client.ack_handler_list 1000 w2 in
    if not (is_connected (get_client_state w))
    then w
    else if not (throttled == 0)
    then w1
    else if w3.dangling
    then w3
    else end_scan env window throttle w3
