-- ===== src/Lifecycle/Steady.antt =====
-- Disconnecting and discarding leave the settings alone.
use ryan_mqtt.Prelude.{Bool, Option-cases, inl, inr, arith, false, true, ℕ}
use ryan_mqtt.Public.{ack_handler_discard, connect_user_disconnected}
use ryan_mqtt.Platform.{Env}
use ryan_mqtt.World.{World, ack_data, connect_status, free, malloc}
use ryan_mqtt.World.Steady.{Steady}
use ryan_mqtt.Event.{event_machine}
use ryan_mqtt.Event.Effect.{notify_lem}
use ryan_mqtt.Network.Effect.{disconnected-Sends, send_packet-Sends}
use ryan_mqtt.Client.{AckHandler}
use ryan_mqtt.Handler.{ack_handler_destroy}
use ryan_mqtt.Handler.Balance.{ack_handler_destroy_lem}
use ryan_mqtt.Ack.{ack_list_node_find}
use ryan_mqtt.Ack.Effect.{ack_list_node_find-blocks}
use ryan_mqtt.World.{Balanced}
use ryan_mqtt.Lifecycle.{discard_ack_handler, disconnect, send_disconnect}

module _ (env : Env) where
  send_disconnect-Balanced : (w : World) → Balanced 0 w (send_disconnect env w).1
  unfolding send_disconnect malloc free
  send_disconnect-Balanced w =
      ground (arith, send_packet-Sends env env.serialize_disconnect.buffer (malloc env w).1)

  send_disconnect-Steady : (w : World) → Steady w (send_disconnect env w).1
  unfolding send_disconnect malloc free
  send_disconnect-Steady w =
      ground (arith, send_packet-Sends env env.serialize_disconnect.buffer (malloc env w).1)

  pub disconnect-Balanced : (flag : Bool) (w : World) → Balanced 0 w (disconnect env flag w).1
  unfolding disconnect
  disconnect-Balanced false w =
      ground (arith, disconnected-Sends env (connect_status connect_user_disconnected) w)
  disconnect-Balanced true w =
      let w1 = (send_disconnect env w).1 in
      ground (
        arith,
        send_disconnect-Balanced w,
        disconnected-Sends env (connect_status connect_user_disconnected) w1,
      )

  pub disconnect-Steady : (flag : Bool) (w : World) → Steady w (disconnect env flag w).1
  unfolding disconnect
  disconnect-Steady false w =
      ground (arith, disconnected-Sends env (connect_status connect_user_disconnected) w)
  disconnect-Steady true w =
      let w1 = (send_disconnect env w).1 in
      ground (
        arith,
        send_disconnect-Steady w,
        disconnected-Sends env (connect_status connect_user_disconnected) w1,
      )

  told_and_freed-Steady :
      (h : AckHandler) (w : World)
      → Steady w (ack_handler_destroy h (event_machine env ack_handler_discard (ack_data h) w))
  unfolding event_machine
  told_and_freed-Steady h w = ground (
    arith,
    notify_lem ack_handler_discard (ack_data h) w,
    ack_handler_destroy_lem h (event_machine env ack_handler_discard (ack_data h) w),
  )

  pub discard_ack_handler-Steady :
      (packet_type packet_id : ℕ) (w : World)
      → Steady w (discard_ack_handler env packet_type packet_id w).1
  unfolding discard_ack_handler
  discard_ack_handler-Steady packet_type packet_id w =
      let (found, w1) = ack_list_node_find packet_type packet_id true w in
      let b = ack_list_node_find-blocks packet_type packet_id w in
      elim (Option-cases found) [
        | inl e ↦ rw e (ground (arith, b))
        | inr (h, e) ↦ rw e (ground (arith, b, told_and_freed-Steady h w1))
      ]
