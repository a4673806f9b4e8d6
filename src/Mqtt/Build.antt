-- ===== src/Mqtt/Build.antt =====
-- The messages that the client sends: the `_mqtt_msg_build_*` functions of mqtt/mqtt.msg.c.
-- A C string is the list of its bytes without the terminator, and NULL is `none`. Lengths are
-- exact: the `int` sums of the source wrap only above 2^31, which is more than MQTT allows.
pub mod Layout
pub mod Session
pub mod Oversize
mod Tests
use libtr.Base.{
  ℕ, zero, suc, ◌+◌, ◌-◌, ◌%◌, ◌^◌, bit_and, bit_or, List, [], ◌∷◌, Option, none, some, Bool, true,
  false, arith, ltb, if◌then◌else◌, length, take, set,
}
use libtr.Base.Int.{pos, negsuc}
use libtr.Error.{Res, ok, err, fault, ◌>>=◌, err_tr50_malloc}
use libtr.Memory.{Malloc, memcpy, zeroed, swap16, short_bytes}
use libtr.Mqtt.Header.{calc_fheader_length, encode_fixed_header_len}
use libtr.Mqtt.Types.{
  msg_type_connect, msg_type_publish, msg_type_puback, msg_type_subscribe, msg_type_unsubscribe,
  msg_type_pingreq, msg_type_disconnect, opt_retain, opt_qos_1,
}

-- `_mqtt_encode_string`: `data_len` is an `unsigned short`, so a longer length loses its high bits.
unfoldable pub encode_string : List ℕ → ℕ → List ℕ → ℕ → Res (List ℕ)
encode_string msg at bytes data_len = do
  let data_len' = data_len % 2 ^ 16
  msg ← memcpy msg at (short_bytes (swap16 data_len'))
  memcpy msg (at + 2) (take data_len' bytes)

-- What each builder does first: it reserves the block, writes the first byte and the remaining
-- length, and sets `ptr` behind the fixed header. Where the size of the header is -1, `ptr` stands
-- in front of the block, and the write that follows is out of bounds. A remaining length that an
-- `int` does not hold is a sum that overflows, and undefined.
unfoldable pub start : Malloc → ℕ → ℕ → Res (List ℕ × ℕ)
start malloc remaining_len byte1 = elim (ltb remaining_len (2 ^ 31)) [
  | false ↦ fault
  | true ↦ elim (calc_fheader_length remaining_len) [
    | pos fixed_header_len ↦ elim (malloc (remaining_len + fixed_header_len)) [
      | none ↦ err err_tr50_malloc
      | some msg ↦ do
        msg ← memcpy msg 0 (byte1 ∷ [])
        msg ← memcpy msg 1 (encode_fixed_header_len remaining_len)
        ok (msg, fixed_header_len)
    ]
    | negsuc _ ↦ elim (malloc (remaining_len - 1)) [ none ↦ err err_tr50_malloc | some msg ↦ fault ]
  ]
]

-- An optional field of the payload of CONNECT, and how far it moves `ptr`.
unfoldable pub encode_optional : List ℕ → ℕ → Option (List ℕ) → Res (List ℕ)
unfolding encode_string
encode_optional msg at none = ok msg
encode_optional msg at (some text) = encode_string msg at text (length text)

abbrev pub optional_len : Option (List ℕ) → ℕ
optional_len none = 0
optional_len (some text) = length text + 2

abbrev pub is_given : Option (List ℕ) → Bool
is_given none = false
is_given (some text) = true

-- The flags of CONNECT.
abbrev pub connect_flags : Option (List ℕ) → Option (List ℕ) → ℕ
connect_flags username password =
    let flags : ℕ = if is_given username then bit_or 0 0x80 else 0 in
    if is_given password then bit_or flags 0x40 else flags

-- "MQIsdp".
abbrev pub protocol_name : List ℕ
protocol_name = 0x4d ∷ 0x51 ∷ 0x49 ∷ 0x73 ∷ 0x64 ∷ 0x70 ∷ []

unfoldable pub build_connect :
    Malloc → List ℕ → Option (List ℕ) → Option (List ℕ) → ℕ → Res (List ℕ)
unfolding start encode_string encode_optional
build_connect malloc client_id username password keepalive = do
  let remaining_len = 12 + (length client_id + 2) + optional_len username + optional_len password
  (msg, at) ← start malloc remaining_len msg_type_connect
  msg ← encode_string msg at protocol_name 6
  let at = at + 6 + 2
  msg ← memcpy msg at (0x03 ∷ [])
  msg ← memcpy msg (at + 1) (connect_flags username password ∷ [])
  msg ← memcpy msg (at + 1 + 1) (short_bytes (swap16 keepalive))
  let at = at + 1 + 1 + 2
  msg ← encode_string msg at client_id (length client_id)
  let at = at + (length client_id + 2)
  msg ← encode_optional msg at username
  encode_optional msg (at + optional_len username) password

-- The first byte of PUBLISH.
abbrev pub publish_byte1 : ℕ → Bool → ℕ
publish_byte1 qos retain =
    let byte1 : ℕ = if ltb 0 qos then bit_or msg_type_publish opt_qos_1 else msg_type_publish in
    if retain then bit_or byte1 opt_retain else byte1

unfoldable pub build_publish : Malloc → List ℕ → ℕ → Bool → ℕ → List ℕ → Res (List ℕ)
unfolding start encode_string
build_publish malloc topic qos retain msg_id payload = do
  let id_len : ℕ = if ltb 0 qos then 2 else 0
  let remaining_len = length topic + 2 + id_len + length payload
  (msg, at) ← start malloc remaining_len (publish_byte1 qos retain)
  msg ← encode_string msg at topic (length topic)
  let at = at + (length topic + 2)
  msg ← if ltb 0 qos then memcpy msg at (short_bytes (swap16 msg_id)) else ok msg
  memcpy msg (at + id_len) payload

unfoldable pub build_puback : Malloc → ℕ → ℕ → Res (List ℕ)
build_puback malloc msg_id qos = elim (malloc 4) [
  | none ↦ err err_tr50_malloc
  | some msg ↦ do
    msg ← memcpy msg 0 (msg_type_puback ∷ [])
    msg ← memcpy msg 1 (0x2 ∷ [])
    memcpy msg 2 (short_bytes (swap16 msg_id))
]

-- `_mqtt_msg_build_disconnect` and `_mqtt_msg_build_ping`.
unfoldable pub build_bare : Malloc → ℕ → Res (List ℕ)
build_bare malloc byte1 = elim (malloc 2) [
  | none ↦ err err_tr50_malloc
  | some msg ↦ do msg ← memcpy msg 0 (byte1 ∷ []); memcpy msg 1 (0 ∷ [])
]

unfoldable pub build_disconnect : Malloc → Res (List ℕ)
unfolding build_bare
build_disconnect malloc = build_bare malloc msg_type_disconnect

unfoldable pub build_ping : Malloc → Res (List ℕ)
unfolding build_bare
build_ping malloc = build_bare malloc msg_type_pingreq

unfoldable pub build_subscribe : Malloc → List ℕ → ℕ → ℕ → Res (List ℕ)
unfolding start encode_string
build_subscribe malloc topic qos msg_id = do
  let remaining_len = 2 + 2 + length topic + 1
  (msg, at) ← start (zeroed malloc) remaining_len (bit_or 0x02 msg_type_subscribe)
  msg ← memcpy msg at (short_bytes (swap16 msg_id))
  msg ← encode_string msg (at + 2) topic (length topic)
  memcpy msg (at + 2 + (length topic + 2)) (bit_and qos 0x3 ∷ [])

unfoldable pub build_unsubscribe : Malloc → List ℕ → ℕ → Res (List ℕ)
unfolding start encode_string
build_unsubscribe malloc topic msg_id = do
  let remaining_len = 2 + 2 + length topic
  (msg, at) ← start (zeroed malloc) remaining_len (bit_or 0x02 msg_type_unsubscribe)
  msg ← memcpy msg at (short_bytes (swap16 msg_id))
  encode_string msg (at + 2) topic (length topic)
