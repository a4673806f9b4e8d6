-- ===== src/Mqtt/Process/Decode.antt =====
-- `mqtt_msg_process_publish` reads back the PUBLISH that `_mqtt_msg_build_publish` builds.
use libtr.Base.{
  ℕ, ◌+◌, ◌-◌, ◌^◌, ◌<◌, ◌≡◌, refl, ◌∙◌, bit_and, List, [], ◌∷◌, ◌++◌, Bool, true, false,
  Bool-cases, inl, inr, none, some, append-nil, append_assoc, arith, ltb, if◌then◌else◌, length,
  length-append,
}
use libtr.Base.Int.{pos, sub_ℕ, minus}
use libtr.Error.{ok, ◌>>=◌}
use libtr.Memory.{Malloc, GivesSize, peek, memory_clone}
use libtr.Memory.Laws.{peek-append, memory_clone-append}
use libtr.Memory.Fill.{u16}
use libtr.Mqtt.Header.{encode_fixed_header_len, decode_header_length}
use libtr.Mqtt.Header.RoundTrip.{decode_header_length-encode}
use libtr.Mqtt.Build.{publish_byte1, build_publish}
use libtr.Mqtt.Build.Layout.{header, frame_size, field, id_field, publish_len, build_publish_layout}
use libtr.Mqtt.Process.{type_of, decode_string, Publish, qos_of, process_rest, process_publish}
use libtr.Mqtt.Process.Acks.{read_id-append}

-- `malloc` grants a clone of the text.
abbrev pub Grants : Malloc → List ℕ → Type 0
Grants malloc text = (block : List ℕ) × (malloc (length text + 1) ≡ some block)

decode_string-field :
    (malloc : Malloc) (pre text rest : List ℕ) (at : ℕ)
    → Grants malloc text
    → at ≡ length pre
    → length text < 2 ^ 16
    → decode_string malloc (pre ++ (field text ++ rest)) at ≡ ok (length text, some text)
unfolding decode_string
decode_string-field malloc pre text rest at (block, e) h short =
    let behind =
      memory_clone-append malloc (pre ++ u16 (length text)) text rest block (at + 2)
        (omega (arith, length-append pre (u16 (length text)))) (omega arith) e in
    rw (
      read_id-append pre (text ++ rest) at (length text) h short,
      (rw (append_assoc pre (u16 (length text)) (text ++ rest)) at behind),
    )

-- The QoS that the receiver sees: the builder's bits tell only 0 from 1.
abbrev pub sent_qos : ℕ → ℕ
sent_qos qos = if ltb 0 qos then 1 else 0

byte1_bits :
    (qos : ℕ) (retain : Bool)
    → (qos_of (publish_byte1 qos retain) ≡ sent_qos qos)
      × (bit_and (publish_byte1 qos retain) 0xF0 ≡ 0x30)
unfolding qos_of
byte1_bits qos true = elim (Bool-cases (ltb 0 qos)) [
  | inl above ↦ rw above (refl, refl)
  | inr bare ↦ rw bare (refl, refl)
]
byte1_bits qos false = elim (Bool-cases (ltb 0 qos)) [
  | inl above ↦ rw above (refl, refl)
  | inr bare ↦ rw bare (refl, refl)
]

-- What a receiver should make of the message.
abbrev pub as_sent : List ℕ → ℕ → ℕ → List ℕ → Publish
as_sent topic qos msg_id payload = record {
  qos = sent_qos qos;
  msg_id = if ltb 0 qos then some msg_id else none;
  topic = some topic;
  payload = some payload;
  payload_len = pos (length payload);
}

minus_two : (n : ℕ) → minus (pos (2 + n)) 2 ≡ pos n
minus_two n = ground arith

-- The payload is what is left of the message.
clone_end :
    (malloc : Malloc) (pre bytes : List ℕ) (at : ℕ) (block : List ℕ)
    → malloc (length bytes + 1) ≡ some block
    → at ≡ length pre
    → length bytes < 2 ^ 28
    → memory_clone malloc (pre ++ bytes) at (length bytes) ≡ ok (some bytes)
clone_end malloc pre bytes at block e h fits =
    (rw append-nil at (memory_clone-append malloc pre bytes [] block at h (omega arith) e))

rest_lem :
    (malloc : Malloc) (pre payload : List ℕ) (at qos msg_id : ℕ) (topic : List ℕ)
    → Grants malloc payload
    → at ≡ length pre
    → msg_id < 2 ^ 16
    → length payload < 2 ^ 28
    → process_rest malloc
        (pre ++ (id_field qos msg_id ++ payload))
        at
        (sent_qos qos)
        (some topic)
        (pos ((if ltb 0 qos then 2 else 0) + length payload))
      ≡ ok (as_sent topic qos msg_id payload)
unfolding process_rest
rest_lem malloc pre payload at qos msg_id topic (block, e) h small fits =
    elim (Bool-cases (ltb 0 qos)) [
      | inl above ↦
          let pre' = pre ++ u16 msg_id in
          let whole =
            clone_end malloc pre' payload (at + 2) block e
              (omega (arith, length-append pre (u16 msg_id))) fits in
          rw (
            above,
            read_id-append pre payload at msg_id h small,
            minus_two (length payload),
            (rw (append_assoc pre (u16 msg_id) payload) at whole),
          )
      | inr bare ↦
          let left : 0 + length payload ≡ length payload = omega arith in
          rw (bare, left, clone_end malloc pre payload at block e h fits)
    ]

-- The whole message that `_mqtt_msg_build_publish` builds.
abbrev pub publish_bytes : List ℕ → ℕ → Bool → ℕ → List ℕ → List ℕ
publish_bytes topic qos retain msg_id payload =
    header (publish_byte1 qos retain) (publish_len topic qos payload)
    ++ (field topic ++ (id_field qos msg_id ++ payload))

-- The part of the function behind its guards.
publish_steps :
    (malloc : Malloc) (buf : List ℕ) (data_len byte1 encoded_size decoded_len : ℕ)
    → 2 < data_len
    → peek buf 0 ≡ ok byte1
    → bit_and byte1 0xF0 ≡ 0x30
    → decode_header_length buf 1 (data_len - 1) ≡ ok (encoded_size, decoded_len)
    → process_publish malloc buf data_len ≡ (
        decode_string malloc buf (1 + encoded_size) >>= λ (str_len, topic).
        process_rest malloc buf
          (1 + encoded_size + (str_len + 2))
          (qos_of byte1)
          topic
          (sub_ℕ decoded_len (str_len + 2)))
unfolding process_publish type_of
publish_steps malloc buf data_len byte1 encoded_size decoded_len long first kind len =
    ground (arith, first, kind, len)

-- The receiver gets the topic, the payload and, above QoS 0, the identifier that were sent.
pub process_publish-build :
    (malloc : Malloc) (topic : List ℕ) (qos : ℕ) (retain : Bool) (msg_id : ℕ) (payload : List ℕ)
    → Grants malloc topic
    → Grants malloc payload
    → length topic < 2 ^ 16
    → msg_id < 2 ^ 16
    → publish_len topic qos payload < 2 ^ 28
    → process_publish malloc
        (publish_bytes topic qos retain msg_id payload)
        (length (publish_bytes topic qos retain msg_id payload))
      ≡ ok (as_sent topic qos msg_id payload)
process_publish-build malloc topic qos retain msg_id payload gt gp short small fits =
    let r = publish_len topic qos payload in
    let byte1 = publish_byte1 qos retain in
    let enc = encode_fixed_header_len r in
    let pre = header byte1 r in
    let rest = id_field qos msg_id ++ payload in
    let body = field topic ++ rest in
    let total : length (pre ++ body) ≡ 1 + length enc + (length topic + 2 + length rest) =
      omega (arith, length-append enc body, length-append topic rest) in
    let left : sub_ℕ r (length topic + 2) ≡ pos ((if ltb 0 qos then 2 else 0) + length payload) =
      ground arith in
    let first : peek (pre ++ body) 0 ≡ ok byte1 = peek-append [] _ 0 byte1 refl in
    let (qos_seen, kind) = byte1_bits qos retain in
    publish_steps malloc (pre ++ body) (length (pre ++ body)) byte1 (length enc) r (omega arith)
      first kind
      (decode_header_length-encode (byte1 ∷ []) body r (length (pre ++ body) - 1) fits
        (omega arith))
    ∙ rw
        (
          decode_string-field malloc pre topic rest (1 + length enc) gt (omega arith) short,
          qos_seen,
          left,
        )
        (rw (append_assoc pre (field topic) rest) at (
          rest_lem malloc (pre ++ field topic) payload (1 + length enc + (length topic + 2)) qos
            msg_id topic gp (omega (arith, length-append pre (field topic))) small (omega arith)))

-- PUBLISH is a round trip: where both sides' `malloc` serves them, the topic is shorter than 65536
-- bytes, the identifier has 16 bits and the remaining length is below 2^28, the receiver takes from
-- the message that `_mqtt_msg_build_publish` returns the topic, the payload and, above QoS 0, the
-- identifier that were given to it. A QoS above 0 arrives as 1.
pub publish_roundtrip :
    (sender malloc : Malloc) (topic : List ℕ) (qos : ℕ) (retain : Bool) (msg_id : ℕ)
    (payload block : List ℕ)
    → GivesSize sender
    → sender (frame_size (publish_len topic qos payload)) ≡ some block
    → Grants malloc topic
    → Grants malloc payload
    → length topic < 2 ^ 16
    → msg_id < 2 ^ 16
    → publish_len topic qos payload < 2 ^ 28
    → (build_publish sender topic qos retain msg_id payload >>= λ msg.
        process_publish malloc msg (length msg))
      ≡ ok (as_sent topic qos msg_id payload)
publish_roundtrip sender malloc topic qos retain msg_id payload block gives room topic_room
      payload_room short small fits =
    rw
      (build_publish_layout sender topic qos retain msg_id payload block gives short small fits
        room)
      (process_publish-build malloc topic qos retain msg_id payload topic_room payload_room short
        small fits)
