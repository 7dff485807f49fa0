-- ===== src/Socket.antt =====
-- platform/linux/platformNetwork.c: the network interface on the sockets of the system. What it
-- calls of the system and of its resolver is a parameter.
pub mod Effect
use ryan_mqtt.Prelude.{
  Bool, List, Option, [], false, if◌then◌else◌, length, ltb, none, not, some, suc, take, true, ℕ,
  ◌%◌, ◌*◌, ◌+◌, ◌-◌, ◌/◌, ◌==◌, ◌^◌,
}
use ryan_mqtt.Public.{Error}
use ryan_mqtt.Platform.{Platform, Received, bytes, negsuc, pos, recv_failed, ℤ}

-- The values of `errno` that the code tells apart. On most systems EWOULDBLOCK is EAGAIN.
pub data Errno : Type 0 where
  eagain ewouldblock eintr etime etimedout other_errno : Errno

-- `gethostbyname_r`: an error; no error, but no address; the first address.
pub data Lookup : Type 0 where
  lookup_failed lookup_empty : Lookup
  lookup_found : ℕ → Lookup

pub data SendAnswer : Type 0 where
  sent : ℕ → SendAnswer
  send_error : Errno → SendAnswer

-- The bytes in `recvBuf`, or -1 and `errno`.
pub data RecvAnswer : Type 0 where
  received : List ℕ → RecvAnswer
  recv_error : Errno → RecvAnswer

-- The calls of the system. The first argument of each numbers the call.
pub record System : Type 0 where
  pub inet_pton : ℕ → List ℕ → Option ℕ
  pub malloc_ok : ℕ → Bool
  pub gethostbyname_r : ℕ → List ℕ → Lookup
  pub gethostbyname : ℕ → List ℕ → Option ℕ
  pub open_socket : ℕ → ℤ
  pub connect_ok : ℕ → ℤ → (address port : ℕ) → Bool
  pub recv : ℕ → ℤ → ℕ → RecvAnswer
  pub send : ℕ → ℤ → List ℕ → SendAnswer

-- `struct timeval`
pub record TimeVal : Type 0 where
  pub tv_sec : ℕ
  pub tv_usec : ℕ

-- `platformNetwork_t`, with the last time-out set on the socket, and with the numbers of the calls, of
-- the sockets opened and closed, and of the blocks allocated and freed.
pub record Port : Type 0 where
  pub socket : ℤ
  pub limit : TimeVal
  pub tick : ℕ
  pub opens : ℕ
  pub closes : ℕ
  pub mallocs : ℕ
  pub frees : ℕ

abbrev pub is_below_zero : ℤ → Bool
is_below_zero (pos n) = false
is_below_zero (negsuc n) = true

-- `platformNetworkInit` and `platformNetworkDestroy`
unfoldable pub port_init : Port → Error × Port
port_init p = (Error.success, record p { socket = negsuc 0 })

unfoldable pub port_destroy : Port → Error × Port
port_destroy p = (Error.success, record p { socket = negsuc 0 })

-- `platformNetworkClose`
unfoldable pub port_close : Port → Error × Port
port_close p = (
  Error.success,
  if not (is_below_zero p.socket) then record p { socket = negsuc 0; closes = p.closes + 1 } else p,
)

-- The first address of a host name, with `gethostbyname` as the way out.
unfoldable pub lookup : System → List ℕ → Port → Option ℕ × Port
lookup os host p =
    let again = record p { tick = p.tick + 2 } in
    let once = record p { tick = p.tick + 1 } in
    elim (os.gethostbyname_r p.tick host) [
      | lookup_failed ↦ (os.gethostbyname (p.tick + 1) host, again)
      | lookup_empty ↦ (none, once)
      | lookup_found a ↦ (some a, once)
    ]

-- Whether `buf` is allocated, and the address, or `none` where the code goes to `__exit`.
unfoldable pub resolve : System → List ℕ → Port → Bool × Option ℕ × Port
unfolding lookup
resolve os host p =
    let p1 = record p { tick = p.tick + 1 } in
    let p2 = record p1 { tick = p1.tick + 1 } in
    let (address, p3) = lookup os host (record p2 { mallocs = p2.mallocs + 1 }) in
    elim (os.inet_pton p.tick host) [
      | some a ↦ (false, some a, p1)
      | none ↦ if not (os.malloc_ok p1.tick) then (false, none, p2) else (true, address, p3)
    ]

-- The socket, and its connection.
unfoldable pub open_connection : System → (address port : ℕ) → Port → Error × Port
unfolding port_close
open_connection os address port p =
    let s = os.open_socket p.tick in
    let p1 = record p { socket = s; tick = p.tick + 1 } in
    let p2 = record p1 { opens = p1.opens + 1; tick = p1.tick + 1 } in
    if is_below_zero s
    then (Error.socket_failed, p1)
    else if not (os.connect_ok p1.tick s address port)
    then (Error.socket_connect_fail, (port_close p2).1)
    else (Error.success, p2)

-- What follows the address.
unfoldable pub connect_to : System → Option ℕ → ℕ → Port → Error × Port
unfolding open_connection
connect_to os none port p = (Error.no_rescource, p)
connect_to os (some a) port p = open_connection os a port p

-- `platformNetworkConnect`
unfoldable pub port_connect : System → List ℕ → ℕ → Port → Error × Port
unfolding resolve connect_to
port_connect os host port p =
    let (allocated, address, p1) = resolve os host p in
    let (e, p2) = connect_to os address port p1 in
    (e, if allocated then record p2 { frees = p2.frees + 1 } else p2)

-- `tv` for a time-out that is not negative.
abbrev pub timeval : ℕ → TimeVal
timeval timeout = record { tv_sec = timeout / 1000; tv_usec = timeout % 1000 * 1000 }

abbrev pub is_harmless : Errno → Bool
is_harmless eagain = true
is_harmless ewouldblock = true
is_harmless eintr = true
is_harmless etime = true
is_harmless etimedout = true
is_harmless other_errno = false

-- `(int32_t)`
abbrev pub to_int32 : ℕ → ℤ
to_int32 n = let m = n % 2 ^ 32 in if ltb m (2 ^ 31) then pos m else negsuc (2 ^ 32 - 1 - m)

-- What follows `recv` and `send`.
abbrev pub count_result : ℕ → ℤ
count_result n = if n == 0 then negsuc 0 else to_int32 n

abbrev pub error_result : Errno → ℤ
error_result e = if is_harmless e then pos 0 else negsuc 0

abbrev pub recv_result : RecvAnswer → ℤ × List ℕ
recv_result (received xs) = (count_result (length xs), xs)
recv_result (recv_error e) = (error_result e, [])

abbrev pub send_result : SendAnswer → ℤ
send_result (sent n) = count_result n
send_result (send_error e) = error_result e

-- `platformNetworkRecvAsync`: the result, and what is in the buffer.
unfoldable pub port_recv : System → ℕ → ℕ → Port → (ℤ × List ℕ) × Port
port_recv os len timeout p = if is_below_zero p.socket then ((negsuc 0, []), p) else (
  recv_result (os.recv p.tick p.socket len),
  record p { limit = timeval timeout; tick = p.tick + 1 },
)

-- `platformNetworkSendAsync`
unfoldable pub port_send : System → List ℕ → ℕ → Port → ℤ × Port
port_send os buf timeout p = if is_below_zero p.socket then (negsuc 0, p) else (
  send_result (os.send p.tick p.socket buf),
  record p { limit = timeval timeout; tick = p.tick + 1 },
)

-- The client's view of an answer to a read: an error, or so many bytes of the buffer.
abbrev pub as_received : ℤ × List ℕ → Received
as_received (pos n, xs) = bytes (take n xs)
as_received (negsuc n, xs) = recv_failed

-- The platform with this network interface. `port_at` is the state that a call finds.
abbrev pub port_platform : System → (ℕ → Port) → Platform → Platform
port_platform os port_at platform = record platform {
  network_send = λ k buf t. (port_send os buf t (port_at k)).0;
  network_recv = λ k len t. as_received (port_recv os len t (port_at k)).0;
}
