-- ===== src/Handler/Create.antt =====
-- The two creations, by whether the memory was there.
use ryan_mqtt.Client.{AckHandler, MsgHandler}
use ryan_mqtt.Prelude.{length, take, ◌%◌, ◌^◌, Bool, List, arith, none, some, ℕ, ◌+◌, ◌≡◌, ◌⊎◌}
use ryan_mqtt.Platform.{Env}
use ryan_mqtt.World.{World, malloc}
use ryan_mqtt.Handler.{ack_handler_create, msg_handler_create}
use ryan_mqtt.Timer.{timer_cutdown}

module _ (env : Env) where
  pub msg_handler_create_cases :
      (topic : List ℕ) (packet_id qos user_data : ℕ) (w : World)
      → let (r, v) = msg_handler_create env topic packet_id qos user_data w in
        ((r ≡ none) × (v ≡ record w { tick = w.tick + 1 }))
        ⊎ ((r
              ≡ some (record {
                user_data = user_data;
                topic = topic;
                qos = qos;
                packet_id = packet_id;
              }))
            × (v ≡ record w { tick = w.tick + 1; mallocs = w.mallocs + 1 }))
  unfolding msg_handler_create malloc
  msg_handler_create_cases topic packet_id qos user_data w = ground arith

  -- The handler that `ack_handler_create` makes at a moment.
  abbrev pub new_ack_handler : ℕ → ℕ → List ℕ → MsgHandler → Bool → World → AckHandler
  new_ack_handler packet_type packet_id packet m external w = record {
    timer = record { time = env.uptime_ms (w.tick + 1); time_out = w.client.config.ack_timeout };
    msg_handler = m;
    packet = take (length packet % 2 ^ 16) packet;
    packet_id = packet_id;
    repeat_count = 0;
    packet_type = packet_type;
    packet_allocated_externally = external;
  }

  pub ack_handler_create_cases :
      (packet_type packet_id : ℕ) (packet : List ℕ) (m : MsgHandler) (external : Bool) (w : World)
      → let (r, v) = ack_handler_create env packet_type packet_id packet m external w in
        ((r ≡ none) × (v ≡ record w { tick = w.tick + 1 }))
        ⊎ ((r ≡ some (new_ack_handler packet_type packet_id packet m external w))
            × (v ≡ record w { tick = w.tick + 2; mallocs = w.mallocs + 1 }))
  unfolding ack_handler_create malloc timer_cutdown
  ack_handler_create_cases packet_type packet_id packet m external w = ground arith
