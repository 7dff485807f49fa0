-- ===== src/Public/PacketType.antt =====
-- mqttclient/include/RyanMqttPublic.h: the first byte of each MQTT packet type.
use ryan_mqtt.Prelude.{ℕ}

abbrev pub packet_type_publish : ℕ
packet_type_publish = 0x30

abbrev pub packet_type_connack : ℕ
packet_type_connack = 0x20

abbrev pub packet_type_puback : ℕ
packet_type_puback = 0x40

abbrev pub packet_type_pubrec : ℕ
packet_type_pubrec = 0x50

abbrev pub packet_type_pubrel : ℕ
packet_type_pubrel = 0x62

abbrev pub packet_type_pubcomp : ℕ
packet_type_pubcomp = 0x70

abbrev pub packet_type_suback : ℕ
packet_type_suback = 0x90

abbrev pub packet_type_unsuback : ℕ
packet_type_unsuback = 0xb0

abbrev pub packet_type_pingresp : ℕ
packet_type_pingresp = 0xd0
