-- ===== src/PacketId/Cycle.antt =====
-- The packet identifiers run through all of 1 to 65534 before one comes again.
use ryan_mqtt.Prelude.{ℕ, zero, suc, ◌+◌, ◌-◌, ◌%◌, ◌≤◌, ◌<◌, ◌≡◌, ◌≢◌, arith}
use ryan_mqtt.Public.{max_packet_id, msg_invalid_packet_id}
use ryan_mqtt.World.{World}
use ryan_mqtt.PacketId.{next_id, get_next_packet_id}

abbrev IsPacketId : ℕ → Type 0
IsPacketId id = (1 ≤ id) × (id ≤ max_packet_id)

next_id-IsPacketId : (id : ℕ) → IsPacketId (next_id id)
unfolding next_id
next_id-IsPacketId id = ground arith

-- The identifier after `n` calls.
pub nth_id : ℕ → World → ℕ
nth_id zero w = w.client.packet_id
nth_id (suc n) w = nth_id n (get_next_packet_id w).1

-- From any state the next identifier is a legal one, 1 to 65534, it is never the mark for "no
-- identifier", and it is the one that the client keeps.
pub get_next_packet_id-legal :
    (w : World)
    → let (id, v) = get_next_packet_id w in
      (1 ≤ id) × (id ≤ max_packet_id) × (id ≢ msg_invalid_packet_id) × (v.client.packet_id ≡ id)
unfolding get_next_packet_id
get_next_packet_id-legal w = ground (arith, next_id-IsPacketId w.client.packet_id)

next_id-mod : (id : ℕ) → IsPacketId id → next_id id ≡ id % 65534 + 1
unfolding next_id
next_id-mod id h = ground arith

pub nth_id-mod :
    (n : ℕ) (w : World)
    → (1 ≤ w.client.packet_id) × (w.client.packet_id ≤ max_packet_id)
    → nth_id n w ≡ (w.client.packet_id - 1 + n) % 65534 + 1
unfolding nth_id get_next_packet_id
nth_id-mod zero w h = omega arith
nth_id-mod (suc n) w h = omega (
  arith,
  nth_id-mod n (get_next_packet_id w).1 (next_id-IsPacketId w.client.packet_id),
  next_id-mod w.client.packet_id h,
)

-- From a state with a legal identifier, the identifiers after `i` and after `j` calls differ
-- whenever `i` and `j` are different and fewer than 65534 calls apart.
pub nth_id-distinct :
    (i j : ℕ) (w : World)
    → (1 ≤ w.client.packet_id) × (w.client.packet_id ≤ max_packet_id)
    → i < j
    → j < i + max_packet_id
    → nth_id i w ≢ nth_id j w
nth_id-distinct i j w h lt near = omega (arith, nth_id-mod i w h, nth_id-mod j w h)
