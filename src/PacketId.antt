-- ===== src/PacketId.antt =====
-- mqttclient/RyanMqttUtil.c, lines 354 to 376: the packet identifiers.
pub mod Cycle
use ryan_mqtt.Prelude.{ℕ, ◌+◌, ◌||◌, ltb, leb, if◌then◌else◌}
use ryan_mqtt.Public.{max_packet_id}
use ryan_mqtt.World.{World, M}

-- The identifier that follows `id`.
unfoldable pub next_id : ℕ → ℕ
next_id id = if leb max_packet_id id || ltb id 1 then 1 else id + 1

-- `RyanMqttGetNextPacketId`
unfoldable pub get_next_packet_id : M ℕ
unfolding next_id
get_next_packet_id w =
    let id = next_id w.client.packet_id in
    (id, record w { client = record w.client { packet_id = id } })
