-- ===== src/Incoming/Steady.antt =====
-- Reading a packet sends nothing; handling one leaves the settings alone, and the state but for a
-- lost connection.
use ryan_mqtt.Prelude.{
  List, Option-cases, [], arith, inl, inr, length, suc, zero, ℕ, ◌%◌, ◌++◌, ◌-◌,
}
use ryan_mqtt.Platform.{Env, PacketInfo}
use ryan_mqtt.World.{World, free, malloc}
use ryan_mqtt.World.Steady.{Steady}
use ryan_mqtt.Event.{refresh_keepalive_time}
use ryan_mqtt.Timer.{timer_cutdown}
use ryan_mqtt.Network.{recv_packet}
use ryan_mqtt.Network.Reads.{Reads, recv_packet-Reads}
use ryan_mqtt.Packet.Steady.{
  puback_and_pubcomp_packet_handler-Steady, publish_packet_handler-Steady,
  pubrec_packet_handler-Steady, pubrel_packet_handler-Steady,
}
use ryan_mqtt.Suback.Steady.{
  suback_handler-Steady, sync_user_ack_handle_lem, un_suback_handler-Steady,
}
use ryan_mqtt.Incoming.{
  Header, Incoming, after_header, dispatch, get_packet_info, header, header_error, overrun,
  process_incoming, process_packet_handler, read_header, read_payload,
}

module _ (env : Env) where
  read_header-Reads :
      (rounds : ℕ) (buffer : List ℕ) (need : ℕ) (w : World)
      → Reads w (read_header env rounds buffer need w).1
  unfolding read_header
  read_header-Reads zero buffer need w = ground arith
  read_header-Reads (suc rounds) buffer need w =
      let ((e, xs), w1) = recv_packet env need w in
      ground (arith, recv_packet-Reads env need w, read_header-Reads rounds (buffer ++ xs) 3 w1)

  read_payload-Reads :
      (buffer : List ℕ) (info : PacketInfo) (w : World) → Reads w (read_payload env buffer info w).1
  unfolding read_payload malloc free
  read_payload-Reads buffer info w =
      let w1 = (malloc env w).1 in
      let already = (length buffer - info.header_length) % 256 in
      ground (arith, recv_packet-Reads env (info.remaining_length - already) w1)

  after_header-Reads : (h : Header) (w : World) → Reads w (after_header env h w).1
  unfolding after_header
  after_header-Reads (header buffer info) w = read_payload-Reads buffer info w
  after_header-Reads (header_error e) w = ground arith
  after_header-Reads overrun w = ground arith

  pub get_packet_info-Reads : (w : World) → Reads w (get_packet_info env w).1
  unfolding get_packet_info
  get_packet_info-Reads w =
      let (h, w1) = read_header env 2 [] 2 w in
      ground (
        arith,
        read_header-Reads 2 [] 2 w,
        after_header-Reads h w1,
        sync_user_ack_handle_lem env (after_header env h w1).1,
      )

  dispatch-Steady : (info : PacketInfo) (w : World) → Steady w (dispatch env info w).1
  unfolding dispatch refresh_keepalive_time timer_cutdown
  dispatch-Steady info w = ground (
    arith,
    publish_packet_handler-Steady env info w,
    puback_and_pubcomp_packet_handler-Steady env info w,
    pubrec_packet_handler-Steady env info w,
    pubrel_packet_handler-Steady env info w,
    suback_handler-Steady env info w,
    un_suback_handler-Steady env info w,
  )

  process_incoming-Steady : (p : Incoming) (w : World) → Steady w (process_incoming env p w).1
  unfolding process_incoming free
  process_incoming-Steady p w = ground (arith, dispatch-Steady p.info w)

  -- Handling one packet of any kind leaves the settings, the will, the event mask and the mark for
  -- destruction alone, uses no freed block, and leaves the state but for a lost connection.
  pub process_packet_handler-Steady : (w : World) → Steady w (process_packet_handler env w).1
  unfolding process_packet_handler
  process_packet_handler-Steady w =
      let (p, w1) = get_packet_info env w in
      elim (Option-cases p) [
        | inl e ↦ ground (arith, get_packet_info-Reads w)
        | inr (q, e) ↦ ground (arith, get_packet_info-Reads w, process_incoming-Steady q w1)
      ]
