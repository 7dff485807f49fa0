-- ===== src/Incoming/Balance.antt =====
-- Reading a packet and dispatching it neither leak heap blocks nor free one twice.
use ryan_mqtt.World.{Balanced, World, free, malloc}
use ryan_mqtt.Platform.{Env, PacketInfo}
use ryan_mqtt.Incoming.{
  Incoming, after_header, dispatch, get_packet_info, process_incoming, process_packet_handler,
  read_header, read_payload, Header, header, header_error, overrun,
}
use ryan_mqtt.Prelude.{
  List, Option, Option-cases, [], arith, if◌then◌else◌, inl, inr, length, none, some, suc, zero, ℕ,
  ◌%◌, ◌++◌, ◌-◌, refl, true, false, ◌≡◌, ◌⊎◌,
}
use ryan_mqtt.Packet.Balance.{
  puback_and_pubcomp_packet_handler-Balanced, publish_packet_handler-Balanced,
  pubrec_packet_handler-Balanced, pubrel_packet_handler-Balanced,
}
use ryan_mqtt.Packet.{is_ok}
use ryan_mqtt.Network.{recv_packet}
use ryan_mqtt.Network.Effect.{recv_packet-Sends}
use ryan_mqtt.Event.{refresh_keepalive_time}
use ryan_mqtt.Suback.Balance.{
  suback_handler-Balanced, un_suback_handler-Balanced, sync_user_ack_handle-Balanced,
}
use ryan_mqtt.Timer.{timer_cutdown}

module _ (env : Env) where
  read_header-Balanced :
      (rounds : ℕ) (buffer : List ℕ) (need : ℕ) (w : World)
      → Balanced 0 w (read_header env rounds buffer need w).1
  unfolding read_header
  read_header-Balanced zero buffer need w = omega arith
  read_header-Balanced (suc rounds) buffer need w =
      let ((e, xs), w1) = recv_packet env need w in
      ground (arith, recv_packet-Sends env need w, read_header-Balanced rounds (buffer ++ xs) 3 w1)

  abbrev pub payload_blocks : Incoming → ℕ
  payload_blocks p = if p.allocated then 1 else 0

  read_payload-Balanced :
      (buffer : List ℕ) (info : PacketInfo) (w : World)
      → let (p, v) = read_payload env buffer info w in Balanced (payload_blocks p) w v
  unfolding read_payload malloc free
  read_payload-Balanced buffer info w =
      let w1 = (malloc env w).1 in
      let already = (length buffer - info.header_length) % 256 in
      ground (arith, recv_packet-Sends env (info.remaining_length - already) w1)

  dispatch-Balanced : (info : PacketInfo) (w : World) → Balanced 0 w (dispatch env info w).1
  unfolding dispatch refresh_keepalive_time timer_cutdown
  dispatch-Balanced info w = ground (
    arith,
    publish_packet_handler-Balanced env info w,
    puback_and_pubcomp_packet_handler-Balanced env info w,
    pubrec_packet_handler-Balanced env info w,
    pubrel_packet_handler-Balanced env info w,
    suback_handler-Balanced env info w,
    un_suback_handler-Balanced env info w,
  )

  process_incoming-Balanced :
      (p : Incoming) (w v : World)
      → Balanced (payload_blocks p) w v
      → Balanced 0 w (process_incoming env p v).1
  unfolding process_incoming free
  process_incoming-Balanced p w v b = ground (arith, dispatch-Balanced p.info v)

  abbrev pub read_blocks : Option Incoming → ℕ
  read_blocks none = 0
  read_blocks (some p) = payload_blocks p

  after_header-Balanced :
      (h : Header) (w : World) → let (p, v) = after_header env h w in Balanced (read_blocks p) w v
  unfolding after_header
  after_header-Balanced (header buffer info) w = read_payload-Balanced buffer info w
  after_header-Balanced (header_error e) w = omega arith
  after_header-Balanced overrun w = omega arith

  pub get_packet_info-Balanced :
      (w : World) → let (p, v) = get_packet_info env w in Balanced (read_blocks p) w v
  unfolding get_packet_info
  get_packet_info-Balanced w =
      let (h, w1) = read_header env 2 [] 2 w in
      ground (
        arith,
        read_header-Balanced 2 [] 2 w,
        after_header-Balanced h w1,
        sync_user_ack_handle-Balanced env (after_header env h w1).1,
      )

  -- A packet that could not be read has no memory.
  abbrev pub EmptyIfFailed : Option Incoming → Type 0
  EmptyIfFailed none = Unit {0}
  EmptyIfFailed (some p) = (is_ok p.error ≡ true) ⊎ (p.allocated ≡ false)

  read_payload-Failed :
      (buffer : List ℕ) (info : PacketInfo) (w : World)
      → EmptyIfFailed (some (read_payload env buffer info w).0)
  unfolding read_payload
  read_payload-Failed buffer info w = ground arith

  after_header-Failed : (h : Header) (w : World) → EmptyIfFailed (after_header env h w).0
  unfolding after_header
  after_header-Failed (header buffer info) w = read_payload-Failed buffer info w
  after_header-Failed (header_error e) w = inr refl
  after_header-Failed overrun w = tt

  pub get_packet_info-Failed : (w : World) → EmptyIfFailed (get_packet_info env w).0
  unfolding get_packet_info
  get_packet_info-Failed w = let (h, w1) = read_header env 2 [] 2 w in after_header-Failed h w1

  pub process_packet_handler-Balanced : (w : World) → Balanced 0 w (process_packet_handler env w).1
  unfolding process_packet_handler
  process_packet_handler-Balanced w =
      let (p, w1) = get_packet_info env w in
      elim (Option-cases p) [
        | inl e ↦ ground (arith, get_packet_info-Balanced w)
        | inr (q, e) ↦ ground (arith, get_packet_info-Balanced w, process_incoming-Balanced q w w1)
      ]
