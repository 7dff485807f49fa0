-- ===== src/Query/Events.antt =====
-- The event mask as a set of events.
use ryan_mqtt.Prelude.{
  ◌⊎◌, inl, inr, Bool, arith, bit_and, bit_or, if◌then◌else◌, not, ℕ, ◌%◌, ◌&&◌, ◌*◌, ◌-◌, ◌<◌,
  ◌==◌, ◌^◌, ◌||◌, ◌≡◌,
}
use ryan_mqtt.Public.{
  Event, ack_count_warning, ack_handler_discard, ack_repeat_count_warning, connected,
  destroy_before, disconnected, error_event, event_id, published, received_data, reconnect_before,
  repeat_publish_packet, subscribed, subscribed_failed, un_subscribed, un_subscribed_failed,
  unsubscribed_data,
}
use ryan_mqtt.World.{World}
use ryan_mqtt.Query.{cancel_event_id, get_event_id, register_event_id}
use ryan_mqtt.Query.Bits.{
  bit_and-power, digit_at, digit_at-bit_and, digit_at-bit_or, digit_at-complement, digit_at-power,
  digit_at-small, positive,
}

-- The bit of an event.
abbrev pub event_bit : Event → ℕ
event_bit error_event = 0
event_bit connected = 1
event_bit disconnected = 2
event_bit subscribed = 3
event_bit subscribed_failed = 4
event_bit un_subscribed = 5
event_bit un_subscribed_failed = 6
event_bit published = 7
event_bit repeat_publish_packet = 8
event_bit ack_repeat_count_warning = 9
event_bit ack_count_warning = 10
event_bit ack_handler_discard = 11
event_bit reconnect_before = 12
event_bit destroy_before = 13
event_bit received_data = 14
event_bit unsubscribed_data = 15

-- The test in the event machine.
abbrev pub is_wanted : Event → World → Bool
is_wanted e w = not (bit_and (get_event_id w) (event_id e) == 0)

-- An event is a bit of the low 16.
record IsBit (id k : ℕ) : Type 0 where
  power : id ≡ 2 ^ k
  below : k < 32
  small : id < 2 ^ 32

event_bit_lem : (e : Event) → IsBit (event_id e) (event_bit e)
event_bit_lem error_event = ground arith
event_bit_lem connected = ground arith
event_bit_lem disconnected = ground arith
event_bit_lem subscribed = ground arith
event_bit_lem subscribed_failed = ground arith
event_bit_lem un_subscribed = ground arith
event_bit_lem un_subscribed_failed = ground arith
event_bit_lem published = ground arith
event_bit_lem repeat_publish_packet = ground arith
event_bit_lem ack_repeat_count_warning = ground arith
event_bit_lem ack_count_warning = ground arith
event_bit_lem ack_handler_discard = ground arith
event_bit_lem reconnect_before = ground arith
event_bit_lem destroy_before = ground arith
event_bit_lem received_data = ground arith
event_bit_lem unsubscribed_data = ground arith

zero_or_one : (k a : ℕ) → (digit_at k a ≡ 0) ⊎ (digit_at k a ≡ 1)
zero_or_one k a = ground (arith, digit_at-small k a)

module _ (f id k : ℕ) (b : IsBit id k) where
  single : (bit_and f id == 0) ≡ (digit_at k f == 0)
  single =
      let e : bit_and f id ≡ digit_at k f * 2 ^ k = rw b.power (bit_and-power k f) in
      rw e (elim (zero_or_one k f) [
        | inl z ↦ rw z (ground arith)
        | inr o ↦ rw o (ground (arith, positive k))
      ])

  -- What the bit `j` of the mask is when the one of `id` is set or cleared.
  module _ (j : ℕ) where
    set_digit : (digit_at j (bit_or f id) == 0) ≡ ((digit_at j f == 0) && not (j == k))
    set_digit =
        let d : digit_at j id ≡ (if j == k then 1 else 0) = rw b.power (digit_at-power j k) in
        ground (arith, digit_at-bit_or j f id, d)

    cleared_digit :
        j < 32
        → (digit_at j (bit_and f (2 ^ 32 - 1 - id % 2 ^ 32)) == 0) ≡ ((digit_at j f == 0) || j == k)
    cleared_digit h =
        let d : digit_at j id ≡ (if j == k then 1 else 0) = rw b.power (digit_at-power j k) in
        let r : id % 2 ^ 32 ≡ id = omega (arith, b.small) in
        rw r (
          ground (
            arith,
            digit_at-bit_and j f (2 ^ 32 - 1 - id),
            digit_at-complement j 32 id h b.small,
            digit_at-small j f,
            d,
          ))

module _ (e e' : Event) (w : World) where
  register_event_id-is_wanted :
      is_wanted e' (register_event_id (event_id e) w)
      ≡ (is_wanted e' w || event_bit e' == event_bit e)
  unfolding register_event_id
  register_event_id-is_wanted =
      let f = get_event_id w in
      let b = event_bit_lem e in
      let c = event_bit_lem e' in
      rw
        (
          single (bit_or f (event_id e)) (event_id e') (event_bit e') c,
          single f (event_id e') (event_bit e') c,
          set_digit f (event_id e) (event_bit e) b (event_bit e'),
        )
        (ground arith)

  cancel_event_id-is_wanted :
      is_wanted e' (cancel_event_id (event_id e) w)
      ≡ (is_wanted e' w && not (event_bit e' == event_bit e))
  unfolding cancel_event_id
  cancel_event_id-is_wanted =
      let f = get_event_id w in
      let b = event_bit_lem e in
      let c = event_bit_lem e' in
      rw
        (
          single (bit_and f (2 ^ 32 - 1 - event_id e % 2 ^ 32)) (event_id e') (event_bit e') c,
          single f (event_id e') (event_bit e') c,
          cleared_digit f (event_id e) (event_bit e) b (event_bit e') c.below,
        )
        (ground arith)

  -- The mask is a set of events: RyanMqttRegisterEventId puts exactly its event in, RyanMqttCancelEventId
  -- takes exactly its event out, and whether the callback gets any other event stays as it was. Two
  -- events are the same where their bits are.
  pub event_mask-set :
      (is_wanted e' (register_event_id (event_id e) w)
        ≡ (is_wanted e' w || event_bit e' == event_bit e))
      × (is_wanted e' (cancel_event_id (event_id e) w)
          ≡ (is_wanted e' w && not (event_bit e' == event_bit e)))
  event_mask-set = (register_event_id-is_wanted, cancel_event_id-is_wanted)
