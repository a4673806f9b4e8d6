-- ===== src/Mqtt/Build/Session.antt =====
-- The layout of CONNECT, SUBSCRIBE, UNSUBSCRIBE, PUBACK and PINGREQ, byte for byte.
use libtr.Base.{
  ℕ, ◌+◌, ◌^◌, ◌<◌, ◌≡◌, refl, ◌∙◌, bit_and, List, [], ◌∷◌, ◌++◌, Option, none, some, append-nil,
  append_assoc, arith, length, length-append, length-replicate, replicate,
}
use libtr.Error.{ok}
use libtr.Memory.{Malloc, GivesSize, zeroed}
use libtr.Memory.Fill.{
  Filled, Started-then, fill_then, memcpy-Filled, eq_of_Filled, u16, short_bytes-swap16,
}
use libtr.Mqtt.Types.{msg_type_connect}
use libtr.Mqtt.Build.{
  encode_optional, optional_len, connect_flags, protocol_name, build_connect, build_puback,
  build_subscribe, build_unsubscribe,
}
use libtr.Mqtt.Build.Layout.{header, frame_size, field, start-Started, encode_string-Filled}

-- The zeroed block has the size that was asked for, whatever `malloc` returned.
zeroed-GivesSize : (malloc : Malloc) → GivesSize (zeroed malloc)
unfolding zeroed
zeroed-GivesSize malloc n block e = go (malloc n) refl
  where
    go : (m : Option (List ℕ)) → malloc n ≡ m → length block ≡ n
    go none h = let absurd_eq : none ≡ some block = rw (h, zeroed) at e in cc
    go (some b) h =
        let both : some (replicate n 0) ≡ some block = rw (h, zeroed) at e in
        let same : replicate n 0 ≡ block = cc in rw (← same) (length-replicate n 0)

zeroed-some :
    (malloc : Malloc) (n : ℕ) (block : List ℕ)
    → malloc n ≡ some block
    → zeroed malloc n ≡ some (replicate n 0)
unfolding zeroed
zeroed-some malloc n block e = rw (e, zeroed)

abbrev pub optional_field : Option (List ℕ) → List ℕ
optional_field none = []
optional_field (some text) = field text

abbrev IsShort : Option (List ℕ) → Type 0
IsShort none = Unit {0}
IsShort (some text) = length text < 2 ^ 16

length-optional_field : (text : Option (List ℕ)) → length (optional_field text) ≡ optional_len text
length-optional_field none = refl
length-optional_field (some text) = omega arith

encode_optional-Filled :
    (pre old : List ℕ) (text : Option (List ℕ)) (at n : ℕ)
    → at ≡ length pre
    → IsShort text
    → length old ≡ n + optional_len text
    → Filled (encode_optional (pre ++ old) at text) (pre ++ optional_field text) n
unfolding encode_optional
encode_optional-Filled pre old none at n h short fits = (old, rw append-nil, omega arith)
encode_optional-Filled pre old (some text) at n h short fits =
    encode_string-Filled pre old text at n h short fits

abbrev pub connect_len : List ℕ → Option (List ℕ) → Option (List ℕ) → ℕ
connect_len client_id username password =
    12 + (length client_id + 2) + optional_len username + optional_len password

-- The protocol name and version, the flags and the keep-alive time.
abbrev pub connect_head : Option (List ℕ) → Option (List ℕ) → ℕ → List ℕ
connect_head username password keepalive =
    (field protocol_name ++ (0x03 ∷ []))
    ++ ((connect_flags username password ∷ []) ++ u16 keepalive)

optional_len-lt : (text : Option (List ℕ)) → IsShort text → optional_len text < 2 ^ 17
optional_len-lt none h = omega arith
optional_len-lt (some text) h = omega arith

-- Where `malloc` gives blocks of the size asked for and serves the message, the texts are shorter
-- than 65536 bytes and the keep-alive time has 16 bits, `_mqtt_msg_build_connect` builds the fixed
-- header, the protocol, the flags and the keep-alive time, and behind their lengths the client's
-- identifier and those of the user name and the password that are given.
pub build_connect_layout :
    (malloc : Malloc) (client_id : List ℕ) (username password : Option (List ℕ)) (keepalive : ℕ)
    (block : List ℕ)
    → GivesSize malloc
    → length client_id < 2 ^ 16
    → IsShort username
    → IsShort password
    → keepalive < 2 ^ 16
    → malloc (frame_size (connect_len client_id username password)) ≡ some block
    → build_connect malloc client_id username password keepalive
      ≡ ok (
          header msg_type_connect (connect_len client_id username password)
          ++ (connect_head username password keepalive
              ++ (field client_id ++ (optional_field username ++ optional_field password))))
unfolding build_connect
build_connect_layout malloc client_id username password keepalive block size short su sp small e =
    let r = connect_len client_id username password in
    let u = optional_len username in
    let p = optional_len password in
    let fits : r < 2 ^ 28 =
      omega (arith, optional_len-lt username su, optional_len-lt password sp) in
    let flags = connect_flags username password in
    let pre1 = header msg_type_connect r in
    let pre2 = pre1 ++ field protocol_name in
    let pre3 = pre2 ++ (0x03 ∷ []) in
    let pre4 = pre3 ++ (flags ∷ []) in
    let pre5 = pre4 ++ u16 keepalive in
    let pre6 = pre5 ++ field client_id in
    let pre7 = pre6 ++ optional_field username in
    let c = length client_id + 2 in
    let l2 = length-append pre1 (field protocol_name) in
    let l3 = length-append pre2 (0x03 ∷ []) in
    let l4 = length-append pre3 (flags ∷ []) in
    let l5 = length-append pre4 (u16 keepalive) in
    let l6 = length-append pre5 (field client_id) in
    let l7 = length-append pre6 (optional_field username) in
    let l8 = length-optional_field username in
    rw (short_bytes-swap16 keepalive small) (
      Started-then _ pre1 (start-Started malloc r msg_type_connect block size fits e) λ old1 h1.
        fill_then _ pre2
          (encode_string-Filled pre1 old1 protocol_name _ (4 + c + u + p) (omega arith)
            (omega arith) (omega arith))
          λ old2 h2.
            fill_then _ pre3
              (memcpy-Filled pre2 old2 (0x03 ∷ []) _ (3 + c + u + p) (omega arith) (omega arith))
              λ old3 h3.
                fill_then _ pre4
                  (memcpy-Filled pre3 old3 (flags ∷ []) _ (2 + c + u + p) (omega arith)
                    (omega arith))
                  λ old4 h4.
                    fill_then _ pre5
                      (memcpy-Filled pre4 old4 (u16 keepalive) _ (c + u + p) (omega arith)
                        (omega arith))
                      λ old5 h5.
                        fill_then _ pre6
                          (encode_string-Filled pre5 old5 client_id _ (u + p) (omega arith) short
                            (omega arith))
                          λ old6 h6.
                            fill_then _ pre7
                              (encode_optional-Filled pre6 old6 username _ p (omega arith) su
                                (omega arith))
                              λ old7 h7.
                                eq_of_Filled (pre7 ++ optional_field password) (
                                  encode_optional-Filled pre7 old7 password _ 0 (omega arith) sp
                                    (omega arith))
                                ∙ simp append_assoc)

-- Where `malloc` serves the message, the topic is shorter than 65536 bytes and the identifier has
-- 16 bits, SUBSCRIBE is the fixed header, the identifier, the topic filter behind its length and
-- the lowest two bits of the QoS.
pub build_subscribe_layout :
    (malloc : Malloc) (topic : List ℕ) (qos msg_id : ℕ) (block : List ℕ)
    → length topic < 2 ^ 16
    → msg_id < 2 ^ 16
    → malloc (frame_size (2 + 2 + length topic + 1)) ≡ some block
    → build_subscribe malloc topic qos msg_id
      ≡ ok (
          header 0x82 (2 + 2 + length topic + 1)
          ++ (u16 msg_id ++ (field topic ++ (bit_and qos 0x3 ∷ []))))
unfolding build_subscribe
build_subscribe_layout malloc topic qos msg_id block short small e =
    let r = 2 + 2 + length topic + 1 in
    let pre1 = header 0x82 r in
    let pre2 = pre1 ++ u16 msg_id in
    let pre3 = pre2 ++ field topic in
    let l2 = length-append pre1 (u16 msg_id) in
    let l3 = length-append pre2 (field topic) in
    rw (short_bytes-swap16 msg_id small) (
      Started-then _ pre1
        (start-Started (zeroed malloc) r 0x82 _ (zeroed-GivesSize malloc) (omega arith)
          (zeroed-some malloc _ block e))
        λ old1 h1.
          fill_then _ pre2
            (memcpy-Filled pre1 old1 (u16 msg_id) _ (length topic + 2 + 1) (omega arith)
              (omega arith))
            λ old2 h2.
              fill_then _ pre3
                (encode_string-Filled pre2 old2 topic _ 1 (omega arith) short (omega arith))
                λ old3 h3.
                  eq_of_Filled (pre3 ++ (bit_and qos 0x3 ∷ []))
                    (memcpy-Filled pre3 old3 (bit_and qos 0x3 ∷ []) _ 0 (omega arith) (omega arith))
                  ∙ simp append_assoc)

-- Where `malloc` serves the message, the topic is shorter than 65536 bytes and the identifier has
-- 16 bits, UNSUBSCRIBE is the fixed header, the identifier and the topic filter behind its length.
pub build_unsubscribe_layout :
    (malloc : Malloc) (topic : List ℕ) (msg_id : ℕ) (block : List ℕ)
    → length topic < 2 ^ 16
    → msg_id < 2 ^ 16
    → malloc (frame_size (2 + 2 + length topic)) ≡ some block
    → build_unsubscribe malloc topic msg_id
      ≡ ok (header 0xa2 (2 + 2 + length topic) ++ (u16 msg_id ++ field topic))
unfolding build_unsubscribe
build_unsubscribe_layout malloc topic msg_id block short small e =
    let r = 2 + 2 + length topic in
    let pre1 = header 0xa2 r in
    let pre2 = pre1 ++ u16 msg_id in
    let l2 = length-append pre1 (u16 msg_id) in
    rw (short_bytes-swap16 msg_id small) (
      Started-then _ pre1
        (start-Started (zeroed malloc) r 0xa2 _ (zeroed-GivesSize malloc) (omega arith)
          (zeroed-some malloc _ block e))
        λ old1 h1.
          fill_then _ pre2
            (memcpy-Filled pre1 old1 (u16 msg_id) _ (length topic + 2) (omega arith) (omega arith))
            λ old2 h2.
              eq_of_Filled (pre2 ++ field topic)
                (encode_string-Filled pre2 old2 topic _ 0 (omega arith) short (omega arith))
              ∙ simp append_assoc)

-- Where `malloc` gives blocks of the size asked for and serves the message, and the identifier has
-- 16 bits, PUBACK is four bytes, the last two of which are the identifier, whatever the QoS is.
pub build_puback_layout :
    (malloc : Malloc) (msg_id qos : ℕ) (block : List ℕ)
    → GivesSize malloc
    → msg_id < 2 ^ 16
    → malloc 4 ≡ some block
    → build_puback malloc msg_id qos ≡ ok (0x40 ∷ 0x02 ∷ u16 msg_id)
unfolding build_puback
build_puback_layout malloc msg_id qos block size small e =
    let four : length block ≡ 4 = size 4 block e in
    rw (e, short_bytes-swap16 msg_id small, build_puback)
      (fill_then _ (0x40 ∷ []) (memcpy-Filled [] block (0x40 ∷ []) 0 3 refl (omega arith))
        λ old1 h1.
          fill_then _ (0x40 ∷ 0x02 ∷ [])
            (memcpy-Filled (0x40 ∷ []) old1 (0x02 ∷ []) 1 2 refl (omega arith))
            λ old2 h2.
              eq_of_Filled (0x40 ∷ 0x02 ∷ u16 msg_id)
                (memcpy-Filled (0x40 ∷ 0x02 ∷ []) old2 (u16 msg_id) 2 0 refl (omega arith)))
