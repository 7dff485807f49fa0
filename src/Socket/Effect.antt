-- ===== src/Socket/Effect.antt =====
-- The network interface keeps account of its socket and its memory, and answers as it is documented.
use ryan_mqtt.Prelude.{
  take_all, ◌∷◌, List, [], Bool-cases, Option, arith, false, inl, inr, length, none, refl, some,
  true, ℕ, ◌*◌, ◌+◌, ◌/◌, ◌<◌, ◌^◌, ◌≡◌, ◌≢◌, ◌≤◌, ◌⊎◌,
}
use ryan_mqtt.Public.{Error}
use ryan_mqtt.Platform.{Env, Platform, Core, Received, bytes, negsuc, pos, recv_failed, ℤ}
use ryan_mqtt.Network.Wire.{AnswersCount}
use ryan_mqtt.Network.Receives.{DeliversAtMost}
use ryan_mqtt.Socket.{
  Port, System, TimeVal, is_below_zero, connect_to, count_result, send_result, recv_result,
  as_received, Errno, eagain, ewouldblock, eintr, etime, etimedout, other_errno, lookup,
  open_connection, port_close, port_connect, port_platform, port_recv, port_send, resolve, timeval,
  SendAnswer, RecvAnswer, sent, send_error, received, recv_error,
}

-- The sockets that are open.
abbrev pub held : ℤ → ℕ
held (pos n) = 1
held (negsuc n) = 0

pub record IsSound (p : Port) : Type 0 where
  pub sockets : p.opens ≡ p.closes + held p.socket
  pub memory : p.mallocs ≡ p.frees

held-below : (z : ℤ) → is_below_zero z ≡ true → held z ≡ 0
held-below (pos n) e = ground arith
held-below (negsuc n) e = refl

connect_to_lem :
    (os : System) (address : Option ℕ) (port : ℕ) (p : Port)
    → p.opens ≡ p.closes
    → is_below_zero p.socket ≡ true
    → let (e, v) = connect_to os address port p in
      (v.opens ≡ v.closes + held v.socket)
      × (((e ≡ Error.success) × (is_below_zero v.socket ≡ false))
          ⊎ ((e ≢ Error.success) × (is_below_zero v.socket ≡ true)))
      × (v.mallocs ≡ p.mallocs)
      × (v.frees ≡ p.frees)
unfolding connect_to open_connection port_close
connect_to_lem os none port p h n = ground arith
connect_to_lem os (some a) port p h n = ground arith

resolve_lem :
    (os : System) (host : List ℕ) (p : Port)
    → let (allocated, address, v) = resolve os host p in
      (v ≡ record p { tick = v.tick; mallocs = v.mallocs })
      × (((allocated ≡ true) × (v.mallocs ≡ p.mallocs + 1))
          ⊎ ((allocated ≡ false) × (v.mallocs ≡ p.mallocs)))
unfolding resolve lookup
resolve_lem os host p = ground arith

-- `platformNetworkConnect` on a closed interface answers success exactly when a socket is open
-- afterwards; on every other way out the socket is closed again, and on all of them the resolver's
-- buffer is freed: the sockets opened are those closed and the one that is held. This supposes that
-- the account was even before.
pub port_connect_lem :
    (os : System) (host : List ℕ) (port : ℕ) (p : Port)
    → IsSound p
    → is_below_zero p.socket ≡ true
    → let (e, v) = port_connect os host port p in
      IsSound v
      × (((e ≡ Error.success) × (is_below_zero v.socket ≡ false))
          ⊎ ((e ≢ Error.success) × (is_below_zero v.socket ≡ true)))
unfolding port_connect
port_connect_lem os host port p s n =
    let (allocated, address, p1) = resolve os host p in
    ground (arith, resolve_lem os host p, held-below p.socket n, connect_to_lem os address port p1)

-- `platformNetworkClose` closes the socket if there is one, and keeps the account.
pub port_close_lem :
    (p : Port) → IsSound p → let v = (port_close p).1 in IsSound v × (is_below_zero v.socket ≡ true)
unfolding port_close
port_close_lem p s = ground arith

-- `send` and `recv` as they are documented: they move at most as many bytes as they were given, and
-- on Linux at most 2^31 - 4096.
pub record Documented (os : System) : Type 0 where
  pub sends :
      (k : ℕ) (s : ℤ) (buf : List ℕ) (n : ℕ)
      → os.send k s buf ≡ sent n
      → (n ≤ length buf) × (n < 2 ^ 31)
  pub receives :
      (k : ℕ) (s : ℤ) (len : ℕ) (xs : List ℕ)
      → os.recv k s len ≡ received xs
      → (length xs ≤ len) × (length xs < 2 ^ 31)

count_result_cases :
    (n : ℕ)
    → n < 2 ^ 31
    → ((n ≡ 0) × (count_result n ≡ negsuc 0)) ⊎ ((n ≢ 0) × (count_result n ≡ pos n))
count_result_cases n h = ground arith

-- The milliseconds of a `struct timeval`.
abbrev pub milliseconds : TimeVal → ℕ
milliseconds tv = tv.tv_sec * 1000 + tv.tv_usec / 1000

milliseconds-timeval : (t : ℕ) → milliseconds (timeval t) ≡ t
milliseconds-timeval t = omega arith

-- What a read of at most `len` bytes answers to the client where the system answered `a`.
abbrev pub ReadAs : ℕ → RecvAnswer → Received → Type 0
ReadAs len a r =
    ((r ≡ recv_failed) × ((a ≡ received []) ⊎ (a ≡ recv_error other_errno)))
    ⊎ ((xs : List ℕ) × (a ≡ received xs) × (xs ≢ []) × (length xs ≤ len) × (r ≡ bytes xs))
    ⊎ ((e : Errno) × (a ≡ recv_error e) × (e ≢ other_errno) × (r ≡ bytes []))

module _ (os : System) (documented : Documented os) where
  send_result-count :
      (k : ℕ) (s : ℤ) (buf : List ℕ) (a : SendAnswer)
      → os.send k s buf ≡ a
      → ((n : ℕ) × (send_result a ≡ pos n) × (n ≤ length buf)) ⊎ (send_result a ≡ negsuc 0)
  send_result-count k s buf (sent n) e =
      ground (arith, documented.sends k s buf n e, count_result_cases n)
  send_result-count k s buf (send_error e) h = ground arith

  port_platform-AnswersCount :
      (port_at : ℕ → Port) (platform : Platform) (core : Core)
      → AnswersCount (record { platform = port_platform os port_at platform; core = core })
  unfolding port_send
  port_platform-AnswersCount port_at platform core k buf timeout =
      let p = port_at k in
      elim (Bool-cases (is_below_zero p.socket)) [
        | inl y ↦ inr (ground (arith, y))
        | inr n ↦ rw n (send_result-count p.tick p.socket buf (os.send p.tick p.socket buf) refl)
      ]

  recv_result_cases :
      (k : ℕ) (s : ℤ) (len : ℕ) (a : RecvAnswer)
      → os.recv k s len ≡ a
      → ReadAs len a (as_received (recv_result a))
  recv_result_cases k s len (received []) e = inl (refl, inl refl)
  recv_result_cases k s len (received (x ∷ xs)) e =
      let d = documented.receives k s len (x ∷ xs) e in
      inr (
        inl (
          x ∷ xs,
          refl,
          ground arith,
          d.0,
          ground (arith, d, count_result_cases (length (x ∷ xs)), take_all (x ∷ xs)),
        ))
  recv_result_cases k s len (recv_error eagain) h = inr (inr (eagain, refl, ground arith, refl))
  recv_result_cases k s len (recv_error ewouldblock) h =
      inr (inr (ewouldblock, refl, ground arith, refl))
  recv_result_cases k s len (recv_error eintr) h = inr (inr (eintr, refl, ground arith, refl))
  recv_result_cases k s len (recv_error etime) h = inr (inr (etime, refl, ground arith, refl))
  recv_result_cases k s len (recv_error etimedout) h =
      inr (inr (etimedout, refl, ground arith, refl))
  recv_result_cases k s len (recv_error other_errno) h = inl (refl, inr refl)

  -- `platformNetworkRecvAsync` on a closed interface fails and does nothing. On an open one it sets
  -- the time-out that it was given, in milliseconds, and answers the bytes that arrived, at most as
  -- many as asked for, or none of them where the system reports a time-out, an interruption or an
  -- empty buffer; it fails where the peer has closed the connection and on any other error. This
  -- supposes that `recv` delivers at most the bytes asked for and fewer than 2^31.
  pub port_recv_lem :
      (len timeout : ℕ) (p : Port)
      → let ((z, xs), v) = port_recv os len timeout p in
        ((is_below_zero p.socket ≡ true) × (as_received (z, xs) ≡ recv_failed) × (v ≡ p))
        ⊎ ((is_below_zero p.socket ≡ false)
            × (milliseconds v.limit ≡ timeout)
            × ReadAs len (os.recv p.tick p.socket len) (as_received (z, xs)))
  unfolding port_recv
  port_recv_lem len timeout p = elim (Bool-cases (is_below_zero p.socket)) [
    | inl y ↦ inl (y, ground (arith, y), ground (arith, y))
    | inr n ↦ inr (
      n,
      rw n (milliseconds-timeval timeout),
      rw n (recv_result_cases p.tick p.socket len (os.recv p.tick p.socket len) refl),
    )
  ]

  ReadAs-AtMost :
      (len : ℕ) (a : RecvAnswer) (r : Received) (xs : List ℕ)
      → ReadAs len a r
      → r ≡ bytes xs
      → length xs ≤ len
  ReadAs-AtMost len a r xs h e = ground (arith, h, e)

  port_platform-DeliversAtMost :
      (port_at : ℕ → Port) (platform : Platform) (core : Core)
      → DeliversAtMost (record { platform = port_platform os port_at platform; core = core })
  port_platform-DeliversAtMost port_at platform core k len timeout xs e =
      elim (port_recv_lem len timeout (port_at k)) [
        | inl (_, failed, _) ↦ ground (arith, failed, e)
        | inr (_, _, read) ↦ ReadAs-AtMost len _ _ xs read e
      ]

  -- A client on these sockets has the network that its loops rely on. Whatever the state of the
  -- interface at a call: sending answers how many bytes it took, at most all of them, or -1; receiving
  -- delivers at most the bytes asked for. This supposes that `send` and `recv` of the system move at
  -- most the bytes that they are given and fewer than 2^31.
  pub port_platform_lem :
      (port_at : ℕ → Port) (platform : Platform) (core : Core)
      → let env : Env = record { platform = port_platform os port_at platform; core = core } in
        AnswersCount env × DeliversAtMost env
  port_platform_lem port_at platform core = (
    port_platform-AnswersCount port_at platform core,
    port_platform-DeliversAtMost port_at platform core,
  )
