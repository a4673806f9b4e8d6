-- ===== src/Mqtt/Process/Acks.antt =====
-- What the client makes of an acknowledgement, on every buffer.
use libtr.Base.{
  zero, none, some, get_elem?, suc, ℕ, ◌+◌, ◌*◌, ◌/◌, ◌%◌, ◌^◌, ◌<◌, ◌≡◌, refl, List, [], ◌∷◌, ◌++◌,
  arith, ltb, ◌==◌, if◌then◌else◌, length, All,
}
use libtr.Base.Bits.{high_nibble, top_bit}
use libtr.Base.Int.{ℤ, pos}
use libtr.Error.{
  err_mqtt_msg_connack_unknown_return, err_mqtt_msg_connack_not_authorized,
  err_mqtt_msg_connack_login, err_mqtt_msg_connack_broker, err_mqtt_msg_connack_id, Res, ok, err,
  err_mqtt_msg_connack_length, err_mqtt_msg_connack_type, err_mqtt_msg_puback_length,
  err_mqtt_msg_puback_type, err_mqtt_msg_suback_length, err_mqtt_msg_suback_type,
  err_mqtt_msg_suback_qos_failure, err_mqtt_msg_unsuback_length, err_mqtt_msg_unsuback_type,
}
use libtr.Memory.{IsByte, peek}
use libtr.Memory.Laws.{peek-append, peek-append_one}
use libtr.Memory.Fill.{u16}
use libtr.Mqtt.Process.{
  connack_code, process_connack, read_id, process_puback, process_suback, process_unsuback,
}

pub read_id-append :
    (pre rest : List ℕ) (at v : ℕ)
    → at ≡ length pre
    → v < 2 ^ 16
    → read_id (pre ++ (u16 v ++ rest)) at ≡ ok v
unfolding read_id
read_id-append pre rest at v h small =
    rw
      (
        peek-append pre (v % 256 ∷ rest) at (v / 256) h,
        peek-append_one pre rest at (v / 256) (v % 256) h,
      )
      (ground arith)

-- An acknowledgement of four bytes of the type `kind`, with its identifier.
abbrev pub ack_of : ℕ → ℤ → ℤ → List ℕ → Res ℕ
ack_of kind bad_length bad_type (a ∷ b ∷ c ∷ d ∷ []) =
    if a / 16 == kind then ok (c * 256 + d) else err bad_type
ack_of kind bad_length bad_type _ = err bad_length

-- A buffer of bytes, given with its length, is accepted as PUBACK exactly if it has four bytes and
-- the type 4, and its last two bytes are the identifier, high byte first. Another length is
-- refused before another type, each with its code.
pub process_puback_lem :
    (buf : List ℕ)
    → All IsByte buf
    → process_puback buf (length buf)
      ≡ ack_of 4 err_mqtt_msg_puback_length err_mqtt_msg_puback_type buf
unfolding process_puback peek
process_puback_lem (a ∷ b ∷ c ∷ d ∷ []) all = ground (arith, high_nibble a)
process_puback_lem [] all = ground arith
process_puback_lem (a ∷ []) all = ground arith
process_puback_lem (a ∷ b ∷ []) all = ground arith
process_puback_lem (a ∷ b ∷ c ∷ []) all = ground arith
process_puback_lem (a ∷ b ∷ c ∷ d ∷ e ∷ rest) all = ground arith

-- A buffer of bytes, given with its length, is accepted as UNSUBACK exactly if it has four bytes
-- and the type 11, and its last two bytes are the identifier, high byte first. Another length is
-- refused before another type, each with its code.
pub process_unsuback_lem :
    (buf : List ℕ)
    → All IsByte buf
    → process_unsuback buf (length buf)
      ≡ ack_of 11 err_mqtt_msg_unsuback_length err_mqtt_msg_unsuback_type buf
unfolding process_unsuback peek
process_unsuback_lem (a ∷ b ∷ c ∷ d ∷ []) all = ground (arith, high_nibble a)
process_unsuback_lem [] all = ground arith
process_unsuback_lem (a ∷ []) all = ground arith
process_unsuback_lem (a ∷ b ∷ []) all = ground arith
process_unsuback_lem (a ∷ b ∷ c ∷ []) all = ground arith
process_unsuback_lem (a ∷ b ∷ c ∷ d ∷ e ∷ rest) all = ground arith

-- A SUBACK of five bytes, the last of which is the granted QoS or a failure.
abbrev pub suback_of : List ℕ → Res (ℕ × ℕ)
suback_of (a ∷ b ∷ c ∷ d ∷ qos ∷ []) =
    if a / 16 == 9
    then (if ltb qos 128 then ok (c * 256 + d, qos) else err err_mqtt_msg_suback_qos_failure)
    else err err_mqtt_msg_suback_type
suback_of _ = err err_mqtt_msg_suback_length

-- A buffer of bytes, given with its length, is accepted as SUBACK exactly if it has five bytes,
-- the type 9 and a last byte below 0x80, which is the QoS. The identifier stands in front of it,
-- high byte first.
pub process_suback_lem :
    (buf : List ℕ) → All IsByte buf → process_suback buf (length buf) ≡ suback_of buf
unfolding process_suback peek
process_suback_lem (a ∷ b ∷ c ∷ d ∷ e ∷ []) all = ground (arith, high_nibble a, top_bit e)
process_suback_lem [] all = ground arith
process_suback_lem (a ∷ []) all = ground arith
process_suback_lem (a ∷ b ∷ []) all = ground arith
process_suback_lem (a ∷ b ∷ c ∷ []) all = ground arith
process_suback_lem (a ∷ b ∷ c ∷ d ∷ []) all = ground arith
process_suback_lem (a ∷ b ∷ c ∷ d ∷ e ∷ f ∷ rest) all = ground arith

-- The answers to the codes 0 to 5, and to all others.
abbrev pub connack_answers : List ℤ
connack_answers =
    pos 0
    ∷ pos 1
    ∷ err_mqtt_msg_connack_id
    ∷ err_mqtt_msg_connack_broker
    ∷ err_mqtt_msg_connack_login
    ∷ err_mqtt_msg_connack_not_authorized
    ∷ []

abbrev pub connack_answer : ℕ → ℤ
connack_answer code = elim (get_elem? connack_answers code) [
  | none ↦ err_mqtt_msg_connack_unknown_return
  | some answer ↦ answer
]

connack_code_answer : (code : ℕ) → connack_code code ≡ connack_answer code
unfolding connack_code
connack_code_answer zero = refl
connack_code_answer (suc zero) = refl
connack_code_answer (suc (suc zero)) = refl
connack_code_answer (suc (suc (suc zero))) = refl
connack_code_answer (suc (suc (suc (suc zero)))) = refl
connack_code_answer (suc (suc (suc (suc (suc zero))))) = refl
connack_code_answer (suc (suc (suc (suc (suc (suc n)))))) = ground arith

abbrev pub connack_of : List ℕ → Res ℤ
connack_of (a ∷ b ∷ c ∷ code ∷ []) =
    if a / 16 == 2 then ok (connack_answer code) else err err_mqtt_msg_connack_type
connack_of _ = err err_mqtt_msg_connack_length

-- A buffer of bytes, given with its length, is taken as CONNACK by its fourth byte exactly if it
-- has four bytes and the type 2: the codes 0 to 5 have an answer each, all others
-- ERR_MQTT_MSG_CONNACK_UNKNOWN_RETURN. The answer to the code 1, a refused protocol version, is 1
-- and no code of error.h.
pub process_connack_lem :
    (buf : List ℕ) → All IsByte buf → process_connack buf (length buf) ≡ connack_of buf
unfolding process_connack peek
process_connack_lem (a ∷ b ∷ c ∷ d ∷ []) all = ground (arith, high_nibble a, connack_code_answer d)
process_connack_lem [] all = ground arith
process_connack_lem (a ∷ []) all = ground arith
process_connack_lem (a ∷ b ∷ []) all = ground arith
process_connack_lem (a ∷ b ∷ c ∷ []) all = ground arith
process_connack_lem (a ∷ b ∷ c ∷ d ∷ e ∷ rest) all = ground arith
