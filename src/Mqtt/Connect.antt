-- ===== src/Mqtt/Connect.antt =====
-- The opening of a connection: `mqtt_connect` and `_mqtt_https_connect` of mqtt/mqtt.c.
pub mod Outcome
use libtr.Base.{
  sym, is_some, ◌≡◌, ℕ, zero, suc, ◌+◌, ◌-◌, List, [], ◌∷◌, ◌++◌, Option, none, some, Bool, true,
  false, not, ◌&&◌, ◌||◌, length, take, drop, ltb, leb, ◌==◌, if◌then◌else◌,
}
use libtr.Base.Int.{ℤ, pos, is_zero}
use libtr.Error.{
  Holds, Res, ◌>>=◌, ok, err, fault, stuck, err_tr50_malloc, err_tr50_http_proxy_failed,
}
use libtr.Memory.{Malloc}
use libtr.Mqtt.Net.{Received, got, failed, ConnectParams, Net}
use libtr.Mqtt.Build.{build_connect}
use libtr.Mqtt.Process.{process_connack}
use libtr.Mqtt.Client.{MqttClient, new_client, mqtt_send}
use libtr.Mqtt.Recv.{mqtt_recv}

-- `sizeof(_MQTT_CLIENT)` on a 64-bit host.
abbrev pub sizeof_mqtt_client : ℕ
sizeof_mqtt_client = 32

-- "GET /mqtt HTTP/1.1\r\nhost: ".
abbrev pub request_head : List ℕ
request_head =
    71 ∷ 69 ∷ 84 ∷ 32 ∷ 47 ∷ 109 ∷ 113 ∷ 116 ∷ 116 ∷ 32 ∷ 72 ∷ 84 ∷ 84 ∷ 80 ∷ 47 ∷ 49 ∷ 46 ∷ 49 ∷ 13
    ∷ 10 ∷ 104 ∷ 111 ∷ 115 ∷ 116 ∷ 58 ∷ 32 ∷ []

-- "HTTP/1.1 200 OK".
abbrev pub reply_head : List ℕ
reply_head = 72 ∷ 84 ∷ 84 ∷ 80 ∷ 47 ∷ 49 ∷ 46 ∷ 49 ∷ 32 ∷ 50 ∷ 48 ∷ 48 ∷ 32 ∷ 79 ∷ 75 ∷ []

-- "\r\n\r\n".
abbrev pub blank_line : List ℕ
blank_line = 13 ∷ 10 ∷ 13 ∷ 10 ∷ []

-- `snprintf(http_request, 256, ..)` keeps 255 characters.
unfoldable pub http_request : List ℕ → List ℕ
http_request host = take 255 (request_head ++ (host ++ blank_line))

abbrev pub eq_bytes : List ℕ → List ℕ → Bool
eq_bytes [] [] = true
eq_bytes [] (y ∷ ys) = false
eq_bytes (x ∷ xs) [] = false
eq_bytes (x ∷ xs) (y ∷ ys) = x == y && eq_bytes xs ys

-- The text in a buffer of C: what stands in front of its first NUL.
abbrev pub text_of : List ℕ → List ℕ
text_of [] = []
text_of (zero ∷ bytes) = []
text_of (suc b ∷ bytes) = suc b ∷ text_of bytes

-- The two tests on the reply.
unfoldable pub is_accepted : List ℕ → Bool
is_accepted reply =
    let text = text_of reply in
    eq_bytes (take 15 text) reply_head && eq_bytes (drop (length text - 4) text) blank_line

abbrev has_block : Malloc → ℕ → Bool
has_block malloc n = elim (malloc n) [ none ↦ false | some _ ↦ true ]

module _ {W : Type 0} (net : Net W) where
  -- The loop over the reply, a byte at a time, for `room` more bytes; `term_char` counts the line
  -- ends in a row. A read of no byte leaves `buf` unset.
  unfoldable pub https_loop : ℕ → List ℕ → ℕ → W → Res (ℤ × List ℕ × W)
  https_loop zero reply term_char w = ok (pos 0, reply, w)
  https_loop (suc room) reply term_char w =
      let (answer, w') = net.tcp_recv w 1 in
      elim answer [
        | failed ret ↦ ok (ret, reply, w')
        | got [] ↦ fault
        | got (b ∷ _) ↦ elim (b == 13 || b == 10) [
          | false ↦ https_loop room (reply ++ (b ∷ [])) 0 w'
          | true ↦ elim (leb 4 (term_char + 1)) [
            | true ↦ ok (pos 0, reply ++ (b ∷ []), w')
            | false ↦ https_loop room (reply ++ (b ∷ [])) (term_char + 1) w'
          ]
        ]
      ]

  unfoldable pub https_connect : List ℕ → W → Res (ℤ × W)
  unfolding https_loop
  https_connect host w =
      let (ret, w') = net.tcp_send w (http_request host) in
      elim (is_zero ret) [
        | false ↦ ok (ret, w')
        | true ↦ do
          (ret, reply, w) ← https_loop 255 [] 0 w'
          let verdict : ℤ = if is_accepted reply then pos 0 else err_tr50_http_proxy_failed
          ok ((if is_zero ret then verdict else ret), w)
      ]

  -- `end_error`: the socket is closed.
  abbrev pub give_up_connect : ℤ → W → Res (ℤ × Option MqttClient × W)
  give_up_connect ret w = ok (ret, none, net.tcp_disconnect w)

  -- The answer of the broker, where `mqtt_recv` returned `ret`.
  unfoldable pub check_connack : ℤ → List ℕ → MqttClient → W → Res (ℤ × Option MqttClient × W)
  check_connack ret rsp client w = elim (is_zero ret) [
    | false ↦ give_up_connect ret w
    | true ↦ elim (process_connack rsp (length rsp)) [
      | err code ↦ give_up_connect code w
      | fault ↦ fault
      | stuck ↦ stuck
      | ok code ↦ elim (is_zero code) [
        | true ↦ ok (pos 0, some client, w)
        | false ↦ give_up_connect code w
      ]
    ]
  ]

  -- From the CONNECT message on.
  unfoldable pub connect_session : ℕ → Malloc → ConnectParams → W → Res (ℤ × Option MqttClient × W)
  unfolding check_connack
  connect_session fuel malloc params w =
      elim (build_connect malloc params.client_id params.username params.password
        params.keepalive_in_sec) [
          | err ret ↦ give_up_connect ret w
          | fault ↦ fault
          | stuck ↦ stuck
          | ok req ↦ do
            let (_, client, w) = mqtt_send net new_client req w
            (ret, rsp, client, w) ← mqtt_recv net fuel (has_block malloc 128) client 5000 w
            check_connack ret rsp client w
        ]

  -- `strlen(params->host)` and the socket call read the host; a host whose clone is NULL is not modelled
  -- further than `fault`.
  unfoldable pub open_proxy : ConnectParams → W → Res (ℤ × W)
  unfolding https_connect
  open_proxy params w = elim params.use_https_proxy [
    | false ↦ ok (pos 0, w)
    | true ↦ elim params.host [ none ↦ fault | some host ↦ https_connect host w ]
  ]

  unfoldable pub mqtt_connect : ℕ → Malloc → ConnectParams → W → Res (ℤ × Option MqttClient × W)
  unfolding open_proxy connect_session
  mqtt_connect fuel malloc params w = elim (malloc sizeof_mqtt_client) [
    | none ↦ ok (err_tr50_malloc, none, w)
    | some _ ↦
        let (ret, w) =
          if ltb 0 params.proxy_type
          then net.tcp_connect_proxy w params params.use_ssl
          else net.tcp_connect w params params.use_ssl in
        elim (is_zero ret) [
          | false ↦ give_up_connect ret w
          | true ↦ do
            (ret, w) ← open_proxy params w
            if is_zero ret then connect_session fuel malloc params w else give_up_connect ret w
        ]
  ]
