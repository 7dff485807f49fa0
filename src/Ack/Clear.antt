-- ===== src/Ack/Clear.antt =====
-- `RyanMqttClearAckSession` as a filter on both lists.
use ryan_mqtt.Prelude.{
  ℕ, reject, ◌-◌, length, keep, ◌+◌, ◌<◌, ◌≡◌, arith, suc, find_at_cases, inr, inl, zero, ap,
  length-keep-reject, List, find_at, ◌∙◌, none, some, IsFirst, true,
}
use ryan_mqtt.Ack.{clear_loop, awaits, clear_ack_session}
use ryan_mqtt.World.{World, free}
use ryan_mqtt.Handler.{
  ack_handler_destroy, msg_handler_destroy, ack_list_remove_to_ack_list,
  ack_list_remove_to_user_ack_list,
}
use ryan_mqtt.Client.{ack_blocks, AckHandler}
use ryan_mqtt.Ack.Find.{
  ack_list_node_find_by_user_ack_list-some, ack_list_node_find_by_user_ack_list-none,
  ack_list_node_find-some, ack_list_node_find-none,
}

-- Without the handlers of one key.
abbrev pub cleared : ℕ → ℕ → World → World
cleared packet_type packet_id w =
    let p = awaits packet_type packet_id in
    record w {
      client = record w.client {
        user_ack_handler_list = reject p w.client.user_ack_handler_list;
        ack_handler_list = reject p w.client.ack_handler_list;
        ack_handler_count = w.client.ack_handler_count - length (keep p w.client.ack_handler_list);
      };
      frees =
          w.frees
          + ack_blocks (keep p w.client.user_ack_handler_list)
          + ack_blocks (keep p w.client.ack_handler_list);
    }

-- The world after one handler is taken off a list and freed.
abbrev drop_user :
    (before : List AckHandler) (y : AckHandler) (after : List AckHandler) → World → World
drop_user before y after w = ack_handler_destroy y (ack_list_remove_to_user_ack_list before after w)

abbrev drop_ack :
    (before : List AckHandler) (y : AckHandler) (after : List AckHandler) → World → World
drop_ack before y after w = ack_handler_destroy y (ack_list_remove_to_ack_list before after w)

module _ (packet_type packet_id : ℕ) (w : World) where
  -- What a single round finds and does.
  clear_loop-drop_user :
      (rounds : ℕ) {before after : List AckHandler} {y : AckHandler}
      → find_at (awaits packet_type packet_id) w.client.user_ack_handler_list
        ≡ some (before, y, after)
      → clear_loop packet_type packet_id (suc rounds) w
        ≡ clear_loop packet_type packet_id rounds (drop_user before y after w)
  unfolding clear_loop
  clear_loop-drop_user rounds e =
      ground (arith, ack_list_node_find_by_user_ack_list-some packet_type packet_id true w e)

  clear_loop-drop_ack :
      (rounds : ℕ) {before after : List AckHandler} {y : AckHandler}
      → find_at (awaits packet_type packet_id) w.client.user_ack_handler_list ≡ none
      → find_at (awaits packet_type packet_id) w.client.ack_handler_list ≡ some (before, y, after)
      → clear_loop packet_type packet_id (suc rounds) w
        ≡ clear_loop packet_type packet_id rounds (drop_ack before y after w)
  unfolding clear_loop
  clear_loop-drop_ack rounds e e' = ground (
    arith,
    ack_list_node_find_by_user_ack_list-none packet_type packet_id true w e,
    ack_list_node_find-some packet_type packet_id true w e',
  )

  clear_loop-none :
      (rounds : ℕ)
      → find_at (awaits packet_type packet_id) w.client.user_ack_handler_list ≡ none
      → find_at (awaits packet_type packet_id) w.client.ack_handler_list ≡ none
      → clear_loop packet_type packet_id (suc rounds) w ≡ w
  unfolding clear_loop
  clear_loop-none rounds e e' = ground (
    arith,
    ack_list_node_find_by_user_ack_list-none packet_type packet_id true w e,
    ack_list_node_find-none packet_type packet_id true w e',
  )

  -- What it does does not change what will be left in the end.
  cleared-drop_user :
      {before after : List AckHandler} {y : AckHandler}
      → IsFirst (awaits packet_type packet_id) w.client.user_ack_handler_list before y after
      → cleared packet_type packet_id (drop_user before y after w) ≡ cleared packet_type packet_id w
  unfolding ack_handler_destroy msg_handler_destroy free ack_list_remove_to_user_ack_list
  cleared-drop_user f = ground (arith, f, ap ack_blocks f.kept)

  cleared-drop_ack :
      {before after : List AckHandler} {y : AckHandler}
      → IsFirst (awaits packet_type packet_id) w.client.ack_handler_list before y after
      → cleared packet_type packet_id (drop_ack before y after w) ≡ cleared packet_type packet_id w
  unfolding ack_handler_destroy msg_handler_destroy free ack_list_remove_to_ack_list
  cleared-drop_ack f = ground (arith, f, ap length f.kept, ap ack_blocks f.kept)

left : ℕ → ℕ → World → ℕ
left packet_type packet_id w =
    length (keep (awaits packet_type packet_id) w.client.user_ack_handler_list)
    + length (keep (awaits packet_type packet_id) w.client.ack_handler_list)

left-drop_user :
    (packet_type packet_id : ℕ) (w : World) {before after : List AckHandler} {y : AckHandler}
    → IsFirst (awaits packet_type packet_id) w.client.user_ack_handler_list before y after
    → left packet_type packet_id (drop_user before y after w) < left packet_type packet_id w
unfolding left ack_handler_destroy msg_handler_destroy free ack_list_remove_to_user_ack_list
left-drop_user packet_type packet_id w f = ground (arith, ap length f.kept)

left-drop_ack :
    (packet_type packet_id : ℕ) (w : World) {before after : List AckHandler} {y : AckHandler}
    → IsFirst (awaits packet_type packet_id) w.client.ack_handler_list before y after
    → left packet_type packet_id (drop_ack before y after w) < left packet_type packet_id w
unfolding left ack_handler_destroy msg_handler_destroy free ack_list_remove_to_ack_list
left-drop_ack packet_type packet_id w f = ground (arith, ap length f.kept)

clear_loop_lem :
    (packet_type packet_id rounds : ℕ) (w : World)
    → left packet_type packet_id w < rounds
    → clear_loop packet_type packet_id rounds w ≡ cleared packet_type packet_id w
clear_loop_lem packet_type packet_id zero w h = absurd (omega arith)
clear_loop_lem packet_type packet_id (suc rounds) w h =
    elim (find_at_cases (awaits packet_type packet_id) w.client.user_ack_handler_list) [
      | inr (before, y, after, e, f) ↦
          clear_loop-drop_user packet_type packet_id w rounds e
          ∙ clear_loop_lem packet_type packet_id rounds (drop_user before y after w)
              (omega (arith, left-drop_user packet_type packet_id w f))
          ∙ cleared-drop_user packet_type packet_id w f
      | inl (e, k, r) ↦
          elim (find_at_cases (awaits packet_type packet_id) w.client.ack_handler_list) [
            | inr (before, y, after, e', f) ↦
                clear_loop-drop_ack packet_type packet_id w rounds e e'
                ∙ clear_loop_lem packet_type packet_id rounds (drop_ack before y after w)
                    (omega (arith, left-drop_ack packet_type packet_id w f))
                ∙ cleared-drop_ack packet_type packet_id w f
            | inl (e', k', r') ↦
                clear_loop-none packet_type packet_id w rounds e e'
                ∙ ground (arith, ap length k', ap ack_blocks k, ap ack_blocks k')
          ]
    ]

-- Clearing leaves in neither list a handler with the packet type and identifier, keeps all others
-- in order, counts down by the handlers taken off the main list (not below 0), frees all blocks
-- of the handlers taken off, and changes nothing else.
pub clear_ack_session_lem :
    (packet_type packet_id : ℕ) (w : World)
    → clear_ack_session packet_type packet_id w ≡ cleared packet_type packet_id w
unfolding clear_ack_session left
clear_ack_session_lem packet_type packet_id w = clear_loop_lem packet_type packet_id _ w (
    omega (
      arith,
      length-keep-reject (awaits packet_type packet_id) w.client.user_ack_handler_list,
      length-keep-reject (awaits packet_type packet_id) w.client.ack_handler_list,
    ))
