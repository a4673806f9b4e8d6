-- ===== src/Mqtt/Build/Layout.antt =====
-- The messages that the builders return, byte for byte. The block that `malloc` gives holds
-- unknown bytes, and the results do not depend on them: each byte is written, none twice.
use libtr.Base.{
  lt→ltb, ℕ, ◌+◌, ◌%◌, ◌^◌, ◌<◌, ◌≡◌, refl, ◌∙◌, List, [], ◌∷◌, ◌++◌, some, Bool, Bool-cases, inl,
  inr, append-nil, append_assoc, arith, length, length-append, take, ltb, if◌then◌else◌,
  take-append,
}
use libtr.Error.{ok}
use libtr.Memory.{Malloc, GivesSize, memcpy, swap16, short_bytes}
use libtr.Memory.Fill.{
  Filled, Filled-bind, Filled-eq, Started, Started-bind, Started-ok, Started-then, fill_then,
  memcpy-Filled, eq_of_Filled, u16, short_bytes-swap16,
}
use libtr.Mqtt.Header.{encode_fixed_header_len}
use libtr.Mqtt.Header.RoundTrip.{calc_fheader_length_small}
use libtr.Mqtt.Build.{start, encode_string, build_publish, publish_byte1}

-- The fixed header.
abbrev pub header : ℕ → ℕ → List ℕ
header byte1 remaining = byte1 ∷ encode_fixed_header_len remaining

-- The size of a message with `remaining` bytes behind its fixed header.
abbrev pub frame_size : ℕ → ℕ
frame_size remaining = remaining + (1 + length (encode_fixed_header_len remaining))

-- A text with its length in front.
abbrev pub field : List ℕ → List ℕ
field text = u16 (length text) ++ text

-- The block that was reserved starts with the fixed header.
pub start-Started :
    (malloc : Malloc) (remaining byte1 : ℕ) (block : List ℕ)
    → GivesSize malloc
    → remaining < 2 ^ 28
    → malloc (frame_size remaining) ≡ some block
    → Started
        (start malloc remaining byte1)
        (header byte1 remaining)
        remaining
        (1 + length (encode_fixed_header_len remaining))
unfolding start
start-Started malloc remaining byte1 block size h e =
    let enc = encode_fixed_header_len remaining in
    let total : length block ≡ frame_size remaining = size _ _ e in
    rw (lt→ltb remaining (2 ^ 31) (omega arith), calc_fheader_length_small remaining h, e, start)
      (Started-bind _ (byte1 ∷ []) (header byte1 remaining) remaining _
        (memcpy-Filled [] block (byte1 ∷ []) 0 (remaining + length enc) refl (omega arith))
        λ old fits.
          Started-ok (header byte1 remaining) _
            (memcpy-Filled (byte1 ∷ []) old enc 1 remaining refl (omega arith)))

take_self : (xs : List ℕ) → take (length xs) xs ≡ xs
take_self xs = (rw append-nil at (take-append (length xs) xs [] refl))

pub encode_string-Filled :
    (pre old text : List ℕ) (at n : ℕ)
    → at ≡ length pre
    → length text < 2 ^ 16
    → length old ≡ n + (length text + 2)
    → Filled (encode_string (pre ++ old) at text (length text)) (pre ++ field text) n
unfolding encode_string
encode_string-Filled pre old text at n h short fits =
    let wrap : length text % 2 ^ 16 ≡ length text = omega arith in
    let len = u16 (length text) in
    rw (wrap, short_bytes-swap16 (length text) short, take_self text)
      (Filled-bind _ (pre ++ len) (pre ++ field text) n
        (memcpy-Filled pre old len at (n + length text) h (omega arith))
        λ old' fits'. Filled-eq (append_assoc pre len text) (
          memcpy-Filled (pre ++ len) old' text (at + 2) n (omega (arith, length-append pre len))
            fits'))

-- The identifier that PUBLISH carries above QoS 0.
abbrev pub id_field : ℕ → ℕ → List ℕ
id_field qos msg_id = if ltb 0 qos then u16 msg_id else []

length-id_field : (qos msg_id : ℕ) → length (id_field qos msg_id) ≡ (if ltb 0 qos then 2 else 0)
length-id_field qos msg_id = ground arith

id_Filled :
    (pre old : List ℕ) (at qos msg_id n : ℕ)
    → at ≡ length pre
    → msg_id < 2 ^ 16
    → length old ≡ n + length (id_field qos msg_id)
    → Filled
        (if ltb 0 qos
          then memcpy (pre ++ old) at (short_bytes (swap16 msg_id))
          else ok (pre ++ old))
        (pre ++ id_field qos msg_id)
        n
id_Filled pre old at qos msg_id n h small fits = elim (Bool-cases (ltb 0 qos)) [
  | inl above ↦
      let two : length (id_field qos msg_id) ≡ 2 = rw above in
      rw (above, short_bytes-swap16 msg_id small)
        (memcpy-Filled pre old (u16 msg_id) at n h (omega arith))
  | inr bare ↦
      let nothing : length (id_field qos msg_id) ≡ 0 = rw bare in
      rw bare (old, rw append-nil, omega arith)
]

abbrev pub publish_len : List ℕ → ℕ → List ℕ → ℕ
publish_len topic qos payload = length topic + 2 + (if ltb 0 qos then 2 else 0) + length payload

-- Where `malloc` gives blocks of the size asked for and serves the message, the topic is shorter
-- than 65536 bytes, the identifier has 16 bits and the remaining length is below 2^28,
-- `_mqtt_msg_build_publish` builds the fixed header, the topic behind its length, the identifier
-- if the QoS is above 0, and the payload.
pub build_publish_layout :
    (malloc : Malloc) (topic : List ℕ) (qos : ℕ) (retain : Bool) (msg_id : ℕ)
    (payload block : List ℕ)
    → GivesSize malloc
    → length topic < 2 ^ 16
    → msg_id < 2 ^ 16
    → publish_len topic qos payload < 2 ^ 28
    → malloc (frame_size (publish_len topic qos payload)) ≡ some block
    → build_publish malloc topic qos retain msg_id payload
      ≡ ok (
          header (publish_byte1 qos retain) (publish_len topic qos payload)
          ++ (field topic ++ (id_field qos msg_id ++ payload)))
unfolding build_publish
build_publish_layout malloc topic qos retain msg_id payload block size short small fits e =
    let r = publish_len topic qos payload in
    let byte1 = publish_byte1 qos retain in
    let pre1 = header byte1 r in
    let pre2 = pre1 ++ field topic in
    let pre3 = pre2 ++ id_field qos msg_id in
    Started-then _ pre1 (start-Started malloc r byte1 block size fits e) λ old1 h1.
      fill_then _ pre2
        (encode_string-Filled pre1 old1 topic _ (length (id_field qos msg_id) + length payload)
          (omega arith) short (omega (arith, length-id_field qos msg_id)))
        λ old2 h2.
          fill_then _ pre3
            (id_Filled pre2 old2 _ qos msg_id (length payload)
              (omega (arith, length-append pre1 (field topic))) small (omega arith))
            λ old3 h3.
              eq_of_Filled (pre3 ++ payload) (
                memcpy-Filled pre3 old3 payload _ 0
                  (omega (
                    arith,
                    length-append pre1 (field topic),
                    length-append pre2 (id_field qos msg_id),
                    length-id_field qos msg_id,
                  ))
                  (omega arith))
              ∙ simp append_assoc
