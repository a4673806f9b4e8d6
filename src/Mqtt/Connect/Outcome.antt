-- ===== src/Mqtt/Connect/Outcome.antt =====
-- What `mqtt_connect` leaves behind on each of its returns.
use libtr.Mqtt.Types.{msg_type_connack, msg_type_connect}
use libtr.Mqtt.Header.{encode_fixed_header_len, calc_fheader_length}
use libtr.Base.{
  true, [], ◌∷◌, ◌-◌, ◌==◌, take, get_elem?, ◌+◌, ◌^◌, ◌%◌, leb, ℕ, ◌≡◌, refl, sym, List, Option,
  none, some, false, length, ltb, if◌then◌else◌, is_some, Bool-cases, Option-cases, inl, inr, arith,
}
use libtr.Base.Int.{negsuc, ℤ, pos, is_zero}
use libtr.Error.{Res, ok, err, fault, stuck, ◌>>=◌, Res-cases, Holds, Holds-bind, err_tr50_malloc}
use libtr.Memory.{peek, swap16, short_bytes, memcpy, Malloc}
use libtr.Mqtt.Net.{ConnectParams, Net}
use libtr.Mqtt.Build.{start, encode_optional, encode_string, build_connect}
use libtr.Mqtt.Process.{process_connack, type_of}
use libtr.Mqtt.Client.{MqttClient, new_client, mqtt_send}
use libtr.Mqtt.Recv.{mqtt_recv}
use libtr.Mqtt.Connect.{
  sizeof_mqtt_client, has_block, give_up_connect, check_connack, connect_session, open_proxy,
  mqtt_connect,
}

-- A connection stands exactly where the code is 0.
abbrev pub Linked : {W : Type 0} → ℤ × Option MqttClient × W → Type 0
Linked (ret, mqtt, w) = is_some mqtt ≡ is_zero ret

-- A code that a builder or a processor fails with is not 0.
abbrev pub IsFailure {ℓ} : {A : Type ℓ} → Res A → Type 0
IsFailure (err e) = is_zero e ≡ false
IsFailure _ = Unit {0}

IsFailure-bind {ℓ κ} :
    {A : Type ℓ} {B : Type κ} (r : Res A) (f : A → Res B)
    → IsFailure r
    → ((a : A) → IsFailure (f a))
    → IsFailure (r >>= f)
IsFailure-bind (ok a) f h next = next a
IsFailure-bind (err e) f h next = h
IsFailure-bind fault f h next = tt
IsFailure-bind stuck f h next = tt

memcpy-IsFailure : (buf : List ℕ) (at : ℕ) (bytes : List ℕ) → IsFailure (memcpy buf at bytes)
unfolding memcpy
memcpy-IsFailure buf at bytes = elim (Bool-cases (leb (at + length bytes) (length buf))) [
  | inl fits ↦ rw (fits, memcpy) tt
  | inr over ↦ rw (over, memcpy) tt
]

encode_string-IsFailure :
    (msg : List ℕ) (at : ℕ) (bytes : List ℕ) (n : ℕ) → IsFailure (encode_string msg at bytes n)
unfolding encode_string
encode_string-IsFailure msg at bytes n =
    IsFailure-bind (memcpy msg at (short_bytes (swap16 (n % 2 ^ 16)))) _
      (memcpy-IsFailure msg at (short_bytes (swap16 (n % 2 ^ 16))))
      (λ msg. memcpy-IsFailure msg (at + 2) (take (n % 2 ^ 16) bytes))

encode_optional-IsFailure :
    (msg : List ℕ) (at : ℕ) (text : Option (List ℕ)) → IsFailure (encode_optional msg at text)
unfolding encode_optional
encode_optional-IsFailure msg at none = tt
encode_optional-IsFailure msg at (some text) = encode_string-IsFailure msg at text (length text)

refl_ok : (a : List ℕ × ℕ) → IsFailure (ok a)
refl_ok a = tt

start-IsFailure : (malloc : Malloc) (remaining byte1 : ℕ) → IsFailure (start malloc remaining byte1)
unfolding start
start-IsFailure malloc remaining byte1 = elim (Bool-cases (ltb remaining (2 ^ 31))) [
  | inr over ↦ rw (over, start) tt
  | inl fits ↦ go fits (calc_fheader_length remaining) refl
]
  where
    go :
        ltb remaining (2 ^ 31) ≡ true
        → (n : ℤ) → calc_fheader_length remaining ≡ n
        → IsFailure (start malloc remaining byte1)
    go fits (negsuc k) e = elim (Option-cases (malloc (remaining - 1))) [
      | inl full ↦ rw (fits, e, full, start) refl
      | inr (block, got) ↦ rw (fits, e, got, start) tt
    ]
    go fits (pos n) e = elim (Option-cases (malloc (remaining + n))) [
      | inl full ↦
          let eq : start malloc remaining byte1 ≡ err err_tr50_malloc = rw (fits, e, full, start) in
          rw eq refl
      | inr (block, got) ↦
          let steps = IsFailure-bind _ _ (memcpy-IsFailure block 0 (byte1 ∷ [])) (λ msg.
            IsFailure-bind _ _ (memcpy-IsFailure msg 1 (encode_fixed_header_len remaining))
              (λ msg'. refl_ok (msg', n))) in
          rw (fits, e, got, start) steps
    ]

build_connect-IsFailure :
    (malloc : Malloc) (client_id : List ℕ) (username password : Option (List ℕ)) (keepalive : ℕ)
    → IsFailure (build_connect malloc client_id username password keepalive)
unfolding build_connect
build_connect-IsFailure malloc client_id username password keepalive =
    let cpy : (buf : List ℕ) (at : ℕ) (bytes : List ℕ) → IsFailure (memcpy buf at bytes) =
      memcpy-IsFailure in
    IsFailure-bind _ _ (start-IsFailure malloc _ msg_type_connect) (λ (msg, at).
      IsFailure-bind _ _ (IsFailure-bind _ _ (cpy msg at _) (λ msg. cpy msg _ _)) (λ msg.
        IsFailure-bind _ _ (cpy msg _ _) (λ msg. IsFailure-bind _ _ (cpy msg _ _) (λ msg.
          IsFailure-bind _ _ (cpy msg _ _) (λ msg.
            IsFailure-bind _ _ (IsFailure-bind _ _ (cpy msg _ _) (λ msg. cpy msg _ _)) (λ msg.
              IsFailure-bind _ _ (encode_optional-IsFailure msg _ username)
                (λ msg. encode_optional-IsFailure msg _ password)))))))

peek-IsFailure : (buf : List ℕ) (at : ℕ) → IsFailure (peek buf at)
unfolding peek
peek-IsFailure buf at = elim (Option-cases (get_elem? buf at)) [
  | inl over ↦ rw (over, peek) tt
  | inr (b, got) ↦ rw (got, peek) tt
]

type_of-IsFailure : (buf : List ℕ) → IsFailure (type_of buf)
unfolding type_of
type_of-IsFailure buf = IsFailure-bind (peek buf 0) _ (peek-IsFailure buf 0) (λ b. tt)

process_connack-IsFailure : (buf : List ℕ) (n : ℕ) → IsFailure (process_connack buf n)
unfolding process_connack
process_connack-IsFailure buf n = elim (Bool-cases (n == 4)) [
  | inr short ↦ rw (short, process_connack) refl
  | inl long ↦
      rw (long, process_connack)
        (IsFailure-bind (type_of buf) _ (type_of-IsFailure buf) (λ type.
          elim (Bool-cases (type == msg_type_connack)) [
            | inr other ↦ rw other refl
            | inl connack ↦
                rw connack (IsFailure-bind (peek buf 3) _ (peek-IsFailure buf 3) (λ code. tt))
          ]))
]

module _ {W : Type 0} (net : Net W) where
  check_connack-Linked :
      (ret : ℤ) (rsp : List ℕ) (client : MqttClient) (w : W)
      → IsFailure (process_connack rsp (length rsp))
      → Holds Linked (check_connack net ret rsp client w)
  unfolding check_connack
  check_connack-Linked ret rsp client w fails = elim (Bool-cases (is_zero ret)) [
    | inr nonzero ↦ rw (nonzero, check_connack) (sym nonzero)
    | inl got ↦ elim (Res-cases (process_connack rsp (length rsp))) [
      | inl (code, e) ↦ elim (Bool-cases (is_zero code)) [
        | inl good ↦
            let eq : check_connack net ret rsp client w ≡ ok (pos 0, some client, w) =
              ground (arith, got, e, good) in
            rw eq refl
        | inr bad ↦
            let eq : check_connack net ret rsp client w ≡ give_up_connect net code w =
              ground (arith, got, e, bad) in
            rw eq (sym bad)
      ]
      | inr (inl e) ↦
          let eq : check_connack net ret rsp client w ≡ fault = ground (arith, got, e) in rw eq tt
      | inr (inr (inl e)) ↦
          let eq : check_connack net ret rsp client w ≡ stuck = ground (arith, got, e) in rw eq tt
      | inr (inr (inr (code, e))) ↦
          let eq : check_connack net ret rsp client w ≡ give_up_connect net code w =
            ground (arith, got, e) in
          rw eq (sym (rw e at fails))
    ]
  ]

  connect_session-Linked :
      (fuel : ℕ) (malloc : Malloc) (params : ConnectParams) (w : W)
      → Holds Linked (connect_session net fuel malloc params w)
  unfolding connect_session
  connect_session-Linked fuel malloc params w =
      let built =
        build_connect malloc params.client_id params.username params.password
          params.keepalive_in_sec in
      let fails =
        build_connect-IsFailure malloc params.client_id params.username params.password
          params.keepalive_in_sec in
      elim (Res-cases built) [
        | inl (req, e) ↦
            let sent = mqtt_send net new_client req w in
            rw (e, connect_session)
              (Holds-bind Linked (mqtt_recv net fuel (has_block malloc 128) sent.1 5000 sent.2) _
                (λ (ret, rsp, client, w) got.
                  check_connack-Linked ret rsp client w
                    (process_connack-IsFailure rsp (length rsp))))
        | inr (inl e) ↦ rw (e, connect_session) tt
        | inr (inr (inl e)) ↦ rw (e, connect_session) tt
        | inr (inr (inr (code, e))) ↦ rw (e, connect_session) (sym (rw e at fails))
      ]

  -- Where `mqtt_connect` returns, it hands out a connection exactly if it returns 0, whatever the
  -- platform and the broker answer.
  pub mqtt_connect-Linked :
      (fuel : ℕ) (malloc : Malloc) (params : ConnectParams) (w : W)
      → Holds Linked (mqtt_connect net fuel malloc params w)
  unfolding mqtt_connect
  mqtt_connect-Linked fuel malloc params w = elim (Option-cases (malloc sizeof_mqtt_client)) [
    | inl full ↦
        let eq : mqtt_connect net fuel malloc params w ≡ ok (err_tr50_malloc, none, w) =
          rw (full, mqtt_connect) in
        rw eq refl
    | inr (block, granted) ↦
        let opened =
          if ltb 0 params.proxy_type
          then net.tcp_connect_proxy w params params.use_ssl
          else net.tcp_connect w params params.use_ssl in
        elim (Bool-cases (is_zero opened.0)) [
          | inr refused ↦
              let eq : mqtt_connect net fuel malloc params w
                  ≡ give_up_connect net opened.0 opened.1 =
                ground (arith, granted, refused) in
              rw eq (sym refused)
          | inl done ↦
              let eq : mqtt_connect net fuel malloc params w ≡ (
                  open_proxy net params opened.1 >>= λ (ret, w).
                  if is_zero ret
                  then connect_session net fuel malloc params w
                  else give_up_connect net ret w) =
                ground (arith, granted, done) in
              rw eq (
                Holds-bind Linked (open_proxy net params opened.1) _ (λ (ret, w) got.
                  elim (Bool-cases (is_zero ret)) [
                    | inl good ↦ rw good (connect_session-Linked fuel malloc params w)
                    | inr bad ↦ rw bad (sym bad)
                  ]))
        ]
  ]
