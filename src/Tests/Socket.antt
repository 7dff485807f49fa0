-- ===== src/Tests/Socket.antt =====
-- Runs of the network interface on a small system.
use ryan_mqtt.Prelude.{
  [], arith, false, if◌then◌else◌, leb, length, none, refl, true, ◌∷◌, ◌≡◌, ◌≢◌, ◌⊎◌,
}
use ryan_mqtt.Public.{Error}
use ryan_mqtt.Platform.{Env, negsuc, pos, recv_failed}
use ryan_mqtt.Network.Wire.{AnswersCount}
use ryan_mqtt.Network.Receives.{DeliversAtMost}
use ryan_mqtt.Socket.{
  Port, System, as_received, is_below_zero, lookup_found, port_connect, port_platform, port_recv,
  received, sent,
}
use ryan_mqtt.Socket.Effect.{
  Documented, IsSound, ReadAs, milliseconds, port_connect_lem, port_platform_lem, port_recv_lem,
}
use ryan_mqtt.Tests.{least, small_core, small_platform}

-- A system that takes and delivers at most two bytes, and that looks every name up.
abbrev small_system : System
small_system = record {
  inet_pton = λ k host. none;
  malloc_ok = λ k. true;
  gethostbyname_r = λ k host. lookup_found 7;
  gethostbyname = λ k host. none;
  open_socket = λ k. pos 3;
  connect_ok = λ k s a p. true;
  recv = λ k s len. received (if leb 1 len then 9 ∷ [] else []);
  send = λ k s buf. sent (least 2 (length buf));
}

small-Documented : Documented small_system
small-Documented = record {
  sends = λ k s buf n e. ground (arith, e);
  receives = λ k s len xs e. ground (arith, e);
}

abbrev closed_port : Port
closed_port = record {
  socket = negsuc 0;
  limit = record { tv_sec = 0; tv_usec = 0 };
  tick = 0;
  opens = 0;
  closes = 0;
  mallocs = 0;
  frees = 0;
}

abbrev opened_port : Port
opened_port = record closed_port { socket = pos 3; opens = 1 }

abbrev socket_env : Env
socket_env = record {
  platform = port_platform small_system (λ k. opened_port) small_platform;
  core = small_core;
}

port_platform_lem_example : AnswersCount socket_env × DeliversAtMost socket_env
port_platform_lem_example =
    port_platform_lem small_system small-Documented (λ k. opened_port) small_platform small_core

port_connect_lem_example :
    let (e, v) = port_connect small_system (104 ∷ []) 1883 closed_port in
    IsSound v
    × (((e ≡ Error.success) × (is_below_zero v.socket ≡ false))
        ⊎ ((e ≢ Error.success) × (is_below_zero v.socket ≡ true)))
port_connect_lem_example =
    port_connect_lem small_system (104 ∷ []) 1883 closed_port (ground arith) refl

port_recv_lem_example :
    let ((z, xs), v) = port_recv small_system 2 1500 opened_port in
    ((false ≡ true) × (as_received (z, xs) ≡ recv_failed) × (v ≡ opened_port))
    ⊎ ((is_below_zero opened_port.socket ≡ false)
        × (milliseconds v.limit ≡ 1500)
        × ReadAs 2 (received (9 ∷ [])) (as_received (z, xs)))
port_recv_lem_example = port_recv_lem small_system small-Documented 2 1500 opened_port
