-- ===== src/Mqtt/Types.antt =====
-- The message types and option bits of include/tr50/mqtt/mqtt.h.
use libtr.Base.{ℕ}

-- MQTT_GET_MSG_TYPE: the mask of the type in the first byte.
abbrev pub get_msg_type : ℕ
get_msg_type = 0xF0

-- MQTT_MSG_TYPE_*.
abbrev pub msg_type_unknown : ℕ
msg_type_unknown = 0x00

abbrev pub msg_type_connect : ℕ
msg_type_connect = 0x10

abbrev pub msg_type_connack : ℕ
msg_type_connack = 0x20

abbrev pub msg_type_publish : ℕ
msg_type_publish = 0x30

abbrev pub msg_type_puback : ℕ
msg_type_puback = 0x40

abbrev pub msg_type_pubrec : ℕ
msg_type_pubrec = 0x50

abbrev pub msg_type_pubcomp : ℕ
msg_type_pubcomp = 0x70

abbrev pub msg_type_subscribe : ℕ
msg_type_subscribe = 0x80

abbrev pub msg_type_suback : ℕ
msg_type_suback = 0x90

abbrev pub msg_type_unsubscribe : ℕ
msg_type_unsubscribe = 0xA0

abbrev pub msg_type_unsuback : ℕ
msg_type_unsuback = 0xB0

abbrev pub msg_type_pingreq : ℕ
msg_type_pingreq = 0xC0

abbrev pub msg_type_pingresp : ℕ
msg_type_pingresp = 0xD0

abbrev pub msg_type_disconnect : ℕ
msg_type_disconnect = 0xE0

-- MQTT_OPT_*.
abbrev pub opt_retain : ℕ
opt_retain = 0x01

abbrev pub opt_qos_1 : ℕ
opt_qos_1 = 0x02

abbrev pub opt_qos_2 : ℕ
opt_qos_2 = 0x04

abbrev pub opt_qos_failure : ℕ
opt_qos_failure = 0x80
