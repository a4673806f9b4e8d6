-- ===== src/Mqtt/Recv.antt =====
-- The reading of one message from the socket: `mqtt_recv` of mqtt/mqtt.recv.c.
-- The buffer is the list of the bytes read so far, beside the size of its block. The two loops run
-- on fuel; `unfinished` says that it ran out, and `overrun` that a read passed the block's end.
pub mod Stream
pub mod Framing
mod Tests
use libtr.Base.{
  ℕ, zero, suc, ◌+◌, ◌-◌, List, [], ◌∷◌, ◌++◌, Option, none, some, Bool, true, false, not, ◌&&◌,
  length, ltb, leb, ◌==◌, if◌then◌else◌,
}
use libtr.Base.Int.{ℤ, pos, is_zero}
use libtr.Error.{
  Res, ok, err, fault, stuck, err_tr50_malloc, err_tr50_timeout, err_tr50_mqtt_recv_decode_hdr_len,
}
use libtr.Memory.{peek}
use libtr.Mqtt.Net.{Received, got, failed, Net}
use libtr.Mqtt.Header.{decode_header_length}
use libtr.Mqtt.Client.{MqttClient}

pub record Reading (W : Type 0) : Type 0 where
  pub buffer : List ℕ
  pub max_len : ℕ
  pub starting_time : ℕ
  pub client : MqttClient
  pub world : W

-- How a loop ends: with what was read, or with the return of the function.
pub data Reads (W : Type 0) : Type 0 where
  reading : Reading W → Reads W
  returned : ℤ → MqttClient → W → Reads W
  overrun : Reads W
  unfinished : Reads W

-- `MQTT_DEFAULT_RECV_BUF_LEN`.
abbrev pub default_recv_buf_len : ℕ
default_recv_buf_len = 128

-- The block's size after `buffer` was made large enough for `read_len` more bytes.
abbrev pub grown : ℕ → ℕ → ℕ → ℕ
grown max_len cur_len read_len =
    if ltb (max_len - cur_len) read_len then cur_len + read_len else max_len

-- `!(*ptr & 128)` for the last byte of two or more.
abbrev pub ends_header : List ℕ → Bool
ends_header [] = false
ends_header (b ∷ []) = false
ends_header (b ∷ c ∷ []) = ltb c 128
ends_header (b ∷ c ∷ d ∷ rest) = ends_header (c ∷ d ∷ rest)

module _ {W : Type 0} (net : Net W) where
  -- What stands behind `_tcp_recv` in the first loop.
  unfoldable pub received : Reading W → ℕ → List ℕ → W → Reading W
  received r max_len bytes w =
      let (now, w') = net.time_now w in
      record {
        buffer = r.buffer ++ bytes;
        max_len = max_len;
        starting_time = if length r.buffer == 0 then now else r.starting_time;
        client = record r.client { byte_recv = r.client.byte_recv + length bytes };
        world = if length r.buffer == 0 then w' else w;
      }

  -- The loop that reads the fixed header.
  unfoldable pub header_loop : ℕ → ℕ → ℕ → Reading W → Reads W
  unfolding received
  header_loop timeout zero read_len r = unfinished
  header_loop timeout (suc fuel) read_len r =
      let (now, w) = net.time_now r.world in
      let cur_len = length r.buffer in
      let max_len = grown r.max_len cur_len read_len in
      elim (ltb (r.starting_time + timeout) now) [
        | true ↦ returned err_tr50_timeout r.client w
        | false ↦
            elim (ltb (r.max_len - cur_len) read_len
              && not (net.can_realloc (cur_len + read_len))) [
                | true ↦ returned err_tr50_malloc r.client w
                | false ↦
                    let (answer, w') = net.tcp_recv w read_len in
                    elim answer [
                      | failed ret ↦ returned ret r.client w'
                      | got bytes ↦ elim (leb (cur_len + length bytes) max_len) [
                        | false ↦ overrun
                        | true ↦
                            let r' = received r max_len bytes w' in
                            elim (ends_header r'.buffer) [
                              | true ↦ reading r'
                              | false ↦ header_loop timeout fuel 1 r'
                            ]
                      ]
                    ]
              ]
      ]

  -- The loop that reads the `read_len` bytes behind the header.
  unfoldable pub body_loop : ℕ → ℕ → Reading W → Reads W
  body_loop zero read_len r = elim (read_len == 0) [ true ↦ reading r | false ↦ unfinished ]
  body_loop (suc fuel) read_len r = elim (read_len == 0) [
    | true ↦ reading r
    | false ↦
        let (answer, w) = net.tcp_recv r.world read_len in
        elim answer [
          | failed ret ↦ returned ret r.client w
          | got bytes ↦ elim (leb (length r.buffer + length bytes) r.max_len) [
            | false ↦ overrun
            | true ↦ body_loop fuel (read_len - length bytes) (record {
              buffer = r.buffer ++ bytes;
              max_len = r.max_len;
              starting_time = r.starting_time;
              client = record r.client { byte_recv = r.client.byte_recv + length bytes };
              world = w;
            })
          ]
        ]
  ]

  -- The return: the code, the message where it is 0, and the client and the world behind it.
  abbrev pub Return : Type 0
  Return = Res (ℤ × List ℕ × MqttClient × W)

  abbrev return_of : Reads W → (Reading W → Return) → Return
  return_of (reading r) next = next r
  return_of (returned ret client w) next = ok (ret, [], client, w)
  return_of overrun next = fault
  return_of unfinished next = stuck

  -- The end of the function: the time of the message.
  unfoldable pub finish : Reading W → Return
  finish r =
      let (now, w) = net.time_now r.world in
      ok (pos 0, r.buffer, record r.client { last_recv = now }, w)

  -- From the decoding of the length on.
  unfoldable pub recv_body : ℕ → Reading W → Return
  unfolding body_loop finish
  recv_body fuel r = elim (decode_header_length r.buffer 1 (length r.buffer)) [
    | ok (encoded_size, remaining_len) ↦
        let cur_len = length r.buffer in
        elim (ltb (r.max_len - cur_len) remaining_len
          && not (net.can_realloc (cur_len + remaining_len))) [
            | true ↦ ok (err_tr50_malloc, [], r.client, r.world)
            | false ↦
                let (now, w) = net.time_now r.world in
                return_of
                  (body_loop fuel remaining_len
                    (record r { max_len = grown r.max_len cur_len remaining_len; world = w }))
                  finish
          ]
    | err _ ↦ ok (err_tr50_mqtt_recv_decode_hdr_len, [], r.client, r.world)
    | fault ↦ fault
    | stuck ↦ stuck
  ]

  -- `mqtt_recv`; `has_buffer` tells whether its first `malloc` succeeds. The
  -- time that is left for `_tcp_recv` to wait is not handed to the platform: an answer that it gives
  -- is any that it may give within some time.
  unfoldable pub mqtt_recv : ℕ → Bool → MqttClient → ℕ → W → Return
  unfolding header_loop recv_body
  mqtt_recv fuel has_buffer client timeout w =
      let (now, w') = net.time_now w in
      if has_buffer
      then return_of
          (header_loop timeout fuel 2 (record {
            buffer = [];
            max_len = default_recv_buf_len;
            starting_time = now;
            client = client;
            world = w';
          }))
          (recv_body fuel)
      else ok (err_tr50_malloc, [], client, w')
