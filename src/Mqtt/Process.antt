-- ===== src/Mqtt/Process.antt =====
-- The messages that the client receives: the `mqtt_msg_process_*` functions and
-- `mqtt_msg_cmd_get` of mqtt/mqtt.msg.c. `buf` is `data`, and `data_len`, the length that the
-- caller claims, is passed beside it as in the source.
pub mod Acks
pub mod Decode
mod Tests
use libtr.Base.{
  ℕ, zero, suc, ◌+◌, ◌-◌, ◌^◌, bit_and, List, Option, none, some, Bool, true, false, not, ◌&&◌, leb,
  ◌==◌, if◌then◌else◌,
}
use libtr.Base.Int.{ℤ, pos, negsuc, sub_ℕ, minus, to_size}
use libtr.Error.{
  Res, ok, err, fault, stuck, ◌>>=◌, err_mqtt_msg_connack_length, err_mqtt_msg_connack_type,
  err_mqtt_msg_connack_id, err_mqtt_msg_connack_broker, err_mqtt_msg_connack_login,
  err_mqtt_msg_connack_not_authorized, err_mqtt_msg_connack_unknown_return,
  err_mqtt_msg_puback_length, err_mqtt_msg_puback_type, err_mqtt_msg_suback_length,
  err_mqtt_msg_suback_type, err_mqtt_msg_suback_qos_failure, err_mqtt_msg_unsuback_length,
  err_mqtt_msg_unsuback_type, err_mqtt_msg_publish_length, err_mqtt_msg_publish_type,
  err_mqtt_msg_publish_decode_hdr_len,
}
use libtr.Memory.{Malloc, peek, memory_clone, swap16, short_of}
use libtr.Mqtt.Header.{decode_header_length}
use libtr.Mqtt.Types.{
  get_msg_type, msg_type_connack, msg_type_publish, msg_type_puback, msg_type_pubrec,
  msg_type_pubcomp, msg_type_suback, msg_type_unsuback, msg_type_pingresp, msg_type_unknown,
  opt_qos_1, opt_qos_2, opt_qos_failure,
}

-- `data[0] & MQTT_GET_MSG_TYPE`.
unfoldable pub type_of : List ℕ → Res ℕ
type_of buf = do b ← peek buf 0; ok (bit_and b get_msg_type)

-- The return code of a CONNACK. On 1 the source returns MQTT_CONNACK_REFUSED_VERSION, which is 1.
unfoldable pub connack_code : ℕ → ℤ
connack_code code =
    if code == 0
    then pos 0
    else if code == 1
    then pos 1
    else if code == 2
    then err_mqtt_msg_connack_id
    else if code == 3
    then err_mqtt_msg_connack_broker
    else if code == 4
    then err_mqtt_msg_connack_login
    else if code == 5
    then err_mqtt_msg_connack_not_authorized
    else err_mqtt_msg_connack_unknown_return

-- The function's return value: `ok (pos 0)` is success.
unfoldable pub process_connack : List ℕ → ℕ → Res ℤ
unfolding type_of
process_connack buf data_len = elim (data_len == 4) [
  | false ↦ err err_mqtt_msg_connack_length
  | true ↦ do
    type ← type_of buf
    elim (type == msg_type_connack) [
      | false ↦ err err_mqtt_msg_connack_type
      | true ↦ do code ← peek buf 3; ok (connack_code code)
    ]
]

-- `memcpy(msg_id, data + at, 2)` and `swap16`.
unfoldable pub read_id : List ℕ → ℕ → Res ℕ
read_id buf at = do low ← peek buf at; high ← peek buf (at + 1); ok (swap16 (short_of low high))

unfoldable pub process_puback : List ℕ → ℕ → Res ℕ
unfolding type_of read_id
process_puback buf data_len = elim (data_len == 4) [
  | false ↦ err err_mqtt_msg_puback_length
  | true ↦ do
    type ← type_of buf
    elim (type == msg_type_puback) [ false ↦ err err_mqtt_msg_puback_type | true ↦ read_id buf 2 ]
]

-- The identifier and the QoS.
unfoldable pub process_suback : List ℕ → ℕ → Res (ℕ × ℕ)
unfolding type_of read_id
process_suback buf data_len = elim (data_len == 5) [
  | false ↦ err err_mqtt_msg_suback_length
  | true ↦ do
    type ← type_of buf
    elim (type == msg_type_suback) [
      | false ↦ err err_mqtt_msg_suback_type
      | true ↦ do
        msg_id ← read_id buf 2
        qos ← peek buf 4
        if bit_and qos opt_qos_failure == 0
            then ok (msg_id, qos)
            else err err_mqtt_msg_suback_qos_failure
    ]
]

unfoldable pub process_unsuback : List ℕ → ℕ → Res ℕ
unfolding type_of read_id
process_unsuback buf data_len = elim (data_len == 4) [
  | false ↦ err err_mqtt_msg_unsuback_length
  | true ↦ do
    type ← type_of buf
    elim (type == msg_type_unsuback) [
      | false ↦ err err_mqtt_msg_unsuback_type
      | true ↦ read_id buf 2
    ]
]

-- `_mqtt_decode_string`: the length, and the clone, which is NULL where `malloc` fails.
unfoldable pub decode_string : Malloc → List ℕ → ℕ → Res (ℕ × Option (List ℕ))
unfolding read_id
decode_string malloc buf at = do
  len ← read_id buf at
  output ← memory_clone malloc buf (at + 2) len
  ok (len, output)

-- What a PUBLISH is taken apart into. `msg_id` is left alone at QoS 0.
pub record Publish : Type 0 where
  pub qos : ℕ
  pub msg_id : Option ℕ
  pub topic : Option (List ℕ)
  pub payload : Option (List ℕ)
  pub payload_len : ℤ

-- The QoS by the bits of the first byte.
unfoldable pub qos_of : ℕ → ℕ
qos_of byte1 =
    if not (bit_and byte1 opt_qos_1 == 0)
    then 1
    else if not (bit_and byte1 opt_qos_2 == 0)
    then 2
    else 0

-- From the message id on, with `ptr` at `at` and `decoded_len` bytes claimed to be left.
unfoldable pub process_rest : Malloc → List ℕ → ℕ → ℕ → Option (List ℕ) → ℤ → Res Publish
unfolding read_id
process_rest malloc buf at zero topic decoded_len = do
  payload ← memory_clone malloc buf at (to_size decoded_len)
  ok (record {
    qos = 0;
    msg_id = none;
    topic = topic;
    payload = payload;
    payload_len = decoded_len;
  })
process_rest malloc buf at (suc q) topic decoded_len = do
  msg_id ← read_id buf at
  let left = minus decoded_len 2
  payload ← memory_clone malloc buf (at + 2) (to_size left)
  ok (record {
    qos = suc q;
    msg_id = some msg_id;
    topic = topic;
    payload = payload;
    payload_len = left;
  })

unfoldable pub process_publish : Malloc → List ℕ → ℕ → Res Publish
unfolding type_of decode_string qos_of process_rest
process_publish malloc buf data_len = elim (leb data_len 2) [
  | true ↦ err err_mqtt_msg_publish_length
  | false ↦ do
    type ← type_of buf
    elim (type == msg_type_publish) [
      | false ↦ err err_mqtt_msg_publish_type
      | true ↦ elim (decode_header_length buf 1 (data_len - 1)) [
        | ok (encoded_size, decoded_len) ↦ do
          byte1 ← peek buf 0
          let at = 1 + encoded_size
          (str_len, topic) ← decode_string malloc buf at
          process_rest malloc buf (at + (str_len + 2)) (qos_of byte1) topic
              (sub_ℕ decoded_len (str_len + 2))
        | err _ ↦ err err_mqtt_msg_publish_decode_hdr_len
        | fault ↦ fault
        | stuck ↦ stuck
      ]
    ]
]

-- The type of a message, MQTT_MSG_TYPE_UNKNOWN where the client handles none such.
unfoldable pub cmd_get : List ℕ → Res ℕ
unfolding type_of
cmd_get buf = do
  type ← type_of buf
  ok (
      if type == msg_type_connack
      then msg_type_connack
      else if type == msg_type_publish
      then msg_type_publish
      else if type == msg_type_puback
      then msg_type_puback
      else if type == msg_type_pubrec
      then msg_type_pubrec
      else if type == msg_type_pubcomp
      then msg_type_pubcomp
      else if type == msg_type_suback
      then msg_type_suback
      else if type == msg_type_unsuback
      then msg_type_unsuback
      else if type == msg_type_pingresp
      then msg_type_pingresp
      else msg_type_unknown)
