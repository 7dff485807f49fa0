-- ===== src/Scan/Steps.antt =====
-- What the scan does at one awaited acknowledgement.
use ryan_mqtt.Prelude.{List, [], arith, refl, true, ◌%◌, ◌++◌, ◌+◌, ◌^◌, ◌∷◌, ◌≡◌, ◌⊎◌}
use ryan_mqtt.Public.{disconnect_state}
use ryan_mqtt.Client.{AckHandler}
use ryan_mqtt.Platform.{Env}
use ryan_mqtt.World.{World}
use ryan_mqtt.World.Steady.{Settled}
use ryan_mqtt.Timer.{timer_cutdown}
use ryan_mqtt.Event.{event_machine, notify}
use ryan_mqtt.Scan.{count_repeat}

-- The list behind one node: the nodes before it, with what became of it, and the rest. Or nothing
-- is left, since a clean session was purged, and the loop stands at a freed node.
pub record Alive (list : List AckHandler) (w v : World) : Type 0 where
  pub acks : v.client.ack_handler_list ≡ list
  pub dangling : v.dangling ≡ w.dangling

pub record Freed (w v : World) : Type 0 where
  pub acks : v.client.ack_handler_list ≡ []
  pub dangling : v.dangling ≡ true
  pub state : v.client.client_state ≡ disconnect_state
  pub clean : w.client.config.clean_session_flag ≡ true

abbrev pub Outcome : List AckHandler → World → World → Type 0
Outcome list w v = Settled w v × (Alive list w v ⊎ Freed w v)

-- A node that was sent again keeps what it is known by.
pub record SameKey (h h' : AckHandler) : Type 0 where
  pub msg_handler : h'.msg_handler ≡ h.msg_handler
  pub packet_id : h'.packet_id ≡ h.packet_id
  pub packet_type : h'.packet_type ≡ h.packet_type
  pub external : h'.packet_allocated_externally ≡ h.packet_allocated_externally

pub append_is_cons :
    (before : List AckHandler) (h : AckHandler) (rest : List AckHandler)
    → (x : AckHandler) × (xs : List AckHandler) × (before ++ h ∷ rest ≡ x ∷ xs)
append_is_cons [] h rest = (h, rest, refl)
append_is_cons (b ∷ bs) h rest = (b, bs ++ h ∷ rest, refl)

pub count_repeat_lem :
    (env : Env) (before : List AckHandler) (h : AckHandler) (rest : List AckHandler) (w : World)
    → let (h', v) = count_repeat env before h rest w in
      SameKey h h'
      × (h'.repeat_count ≡ (h.repeat_count + 1) % 2 ^ 16)
      × (v ≡ record w {
        client = record w.client { ack_handler_list = before ++ h' ∷ rest };
        tick = w.tick + 1;
        trace = v.trace;
      })
unfolding count_repeat timer_cutdown event_machine notify
count_repeat_lem env before h rest w = ground arith
