-- ===== src/Network/Reads.antt =====
-- Receiving sends nothing, and sending a whole packet leaves the session alone.
use ryan_mqtt.Prelude.{List, arith, ℕ, ◌≡◌}
use ryan_mqtt.Public.{Error, connect_net_work_fail}
use ryan_mqtt.Platform.{Env}
use ryan_mqtt.World.{World, connect_status}
use ryan_mqtt.World.Steady.{Steady}
use ryan_mqtt.Event.Effect.{event_machine-disconnected}
use ryan_mqtt.Timer.{timer_cutdown}
use ryan_mqtt.Event.{refresh_keepalive_time}
use ryan_mqtt.Network.{recv_packet, send_packet, start_receiving}
use ryan_mqtt.Network.Effect.{
  SameSession, recv_packet-Sends, start_sending_lem, recv_result, start_receiving_lem,
}

pub record Reads (w v : World) : Type 0 where
  pub steady : Steady w v
  pub wire : v.wire ≡ w.wire

pub recv_packet-Reads : (env : Env) (len : ℕ) (w : World) → Reads w (recv_packet env len w).1
recv_packet-Reads env len w =
    let v = (start_receiving env len w).1 in
    record {
      steady = (recv_packet-Sends env len w).steady;
      wire = ground (
        arith,
        recv_result env len w,
        start_receiving_lem env len w,
        event_machine-disconnected env (connect_status connect_net_work_fail) v,
      );
    }

-- Behind a packet that was sent, the session is as it was.
pub send_packet-success :
    (env : Env) (buf : List ℕ) (w : World)
    → (send_packet env buf w).0 ≡ Error.success
    → SameSession w (send_packet env buf w).1
unfolding send_packet refresh_keepalive_time timer_cutdown
send_packet-success env buf w e = ground (arith, start_sending_lem env buf w)
