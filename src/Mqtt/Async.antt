-- ===== src/Mqtt/Async.antt =====
-- The client that keeps a connection: the state and the requests of mqtt/mqtt.async.c.
-- Each function runs as one step; the callbacks that it calls are recorded in `events`, in order.
-- A callback does not call back into the client. Counters of type `int` do not wrap in the model;
-- an identifier is `msg_id_seq` as an `unsigned short`.
pub mod Handler
pub mod Sound
pub mod Requests
pub mod Messages
pub mod Rounds
pub mod Life
mod Tests
use libtr.Base.{
  ℕ, zero, suc, ◌+◌, ◌%◌, ◌^◌, List, [], ◌∷◌, ◌++◌, Option, none, some, Bool, true, false, not,
  ◌&&◌, ◌||◌, length, ltb, ◌==◌, if◌then◌else◌,
}
use libtr.Base.Int.{ℤ, pos, is_zero}
use libtr.Error.{
  Res, ◌>>=◌, ok, err, fault, stuck, err_tr50_malloc, err_tr50_parms,
  err_tr50_async_client_not_connected, err_tr50_async_client_same_thread, err_mqtt_qos_stopping,
}
use libtr.Memory.{Malloc}
use libtr.Mqtt.Net.{ConnectParams, Net}
use libtr.Mqtt.Client.{
  MqttClient, mqtt_publish, mqtt_subscribe, mqtt_unsubscribe, mqtt_disconnect, mqtt_stats_byte_sent,
  mqtt_stats_byte_recv, mqtt_stats_clear,
}
use libtr.Mqtt.Connect.{mqtt_connect}
use libtr.Mqtt.Qos.{Qos, Call, create, add, clear}

-- `MQTT_ASYNC_CLIENT_STATE_*`.
pub data State : Type 0 where
  created : State
  connecting : State
  connected : State
  broken : State
  reconnecting : State
  disabled : State
  deleting : State
  deleted : State

abbrev pub is_connected : State → Bool
is_connected connected = true
is_connected _ = false

abbrev pub is_broken : State → Bool
is_broken broken = true
is_broken _ = false

-- A callback of the application that was called.
pub data Event : Type 0 where
  -- `state_change_callback(old_state, new_state, error, ..)`.
  changed : State → State → ℤ → Event
  -- `publish_callback(topic, payload, payload_len, ..)`.
  published : Option (List ℕ) → Option (List ℕ) → ℤ → Event
  -- The callback of an acknowledgement.
  acknowledged : Call → Event

abbrev pub acknowledged_all : List Call → List Event
acknowledged_all [] = []
acknowledged_all (call ∷ calls) = acknowledged call ∷ acknowledged_all calls

-- `_MQTT_ASYNC_CLIENT`, and the callbacks called so far.
pub record AsyncClient : Type 0 where
  pub connect_params : ConnectParams
  pub timeout_in_ms : ℕ
  pub msg_id_seq : ℕ
  pub has_state_change_callback : Bool
  pub state : State
  pub thread_id : ℕ
  pub check_thread_id : Bool
  pub mqtt : Option MqttClient
  pub qos : Qos
  pub outstanding_ping : ℕ
  pub stats_reconnect_count : ℕ
  pub stats_reconnect_attempt_count : ℕ
  pub stats_total_byte_sent : ℕ
  pub stats_total_byte_recv : ℕ
  pub events : List Event

-- `_mqtt_async_state_change`: `check_thread_id` is set while the callback runs.
unfoldable pub state_change : AsyncClient → State → State → ℤ → AsyncClient
state_change client old_state new_state error = record client {
  state = new_state;
  check_thread_id = false;
  events =
      client.events
      ++ (if client.has_state_change_callback then changed old_state new_state error ∷ [] else []);
}

-- The guards of the requests: the connection to send on, or the code that they return.
unfoldable pub connection_of : AsyncClient → ℕ → Res MqttClient
connection_of client thread = elim (client.check_thread_id && thread == client.thread_id) [
  | true ↦ err err_tr50_async_client_same_thread
  | false ↦ elim (is_connected client.state) [
    | false ↦ err err_tr50_async_client_not_connected
    | true ↦ elim client.mqtt [
      | none ↦ err err_tr50_async_client_not_connected
      | some mqtt ↦ ok mqtt
    ]
  ]
]

-- `msg_id = client->msg_id_seq++`.
abbrev pub msg_id_of : AsyncClient → ℕ
msg_id_of client = client.msg_id_seq % 2 ^ 16

-- The client that `mqtt_async_connect` fills in, and its first change.
abbrev pub new_async_client : ConnectParams → Bool → Qos → AsyncClient
new_async_client params has_state_change_callback qos = record {
  connect_params = params;
  timeout_in_ms = 5000;
  msg_id_seq = 0;
  has_state_change_callback = has_state_change_callback;
  state = connected;
  thread_id = 0;
  check_thread_id = false;
  mqtt = none;
  qos = qos;
  outstanding_ping = 0;
  stats_reconnect_count = 0;
  stats_reconnect_attempt_count = 0;
  stats_total_byte_sent = 0;
  stats_total_byte_recv = 0;
  events = [];
}

module _ {W : Type 0} (net : Net W) (malloc : Malloc) where
  -- The end of a request: the code, and the change to BROKEN where it is not 0.
  unfoldable pub end_request : AsyncClient → Res (ℤ × MqttClient × W) → Res (ℤ × AsyncClient × W)
  unfolding state_change
  end_request client (ok (ret, mqtt, w)) =
      let sent = record client { mqtt = some mqtt } in
      ok (ret, (if is_zero ret then sent else state_change sent connected broken ret), w)
  end_request client (err e) = err e
  end_request client fault = fault
  end_request client stuck = stuck

  -- What the requests share: the guards, the identifier, the entry in the table where `wants_ack`
  -- says so, and the message. A table that is full ends the request, and the identifier is used up.
  unfoldable pub request :
      (MqttClient → ℕ → W → Res (ℤ × MqttClient × W))
      → Bool
      → AsyncClient
      → Option ℕ
      → ℕ
      → ℕ
      → W
      → Res (ℤ × AsyncClient × W)
  unfolding connection_of end_request
  request send wants_ack client callback custom thread w = elim (connection_of client thread) [
    | err e ↦ ok (e, client, w)
    | fault ↦ fault
    | stuck ↦ stuck
    | ok mqtt ↦
        let msg_id = msg_id_of client in
        let next = record client { msg_id_seq = client.msg_id_seq + 1 } in
        elim wants_ack [
          | false ↦ end_request next (send mqtt msg_id w)
          | true ↦
              let (qos, ret) = add client.qos msg_id callback custom (net.time_now_in_sec w) in
              let entered = record next { qos = qos } in
              elim (is_zero ret) [
                | false ↦ ok (ret, entered, w)
                | true ↦ end_request entered (send mqtt msg_id w)
              ]
        ]
  ]

  -- `_mqtt_async_publish_base`.
  unfoldable pub publish_base :
      AsyncClient → List ℕ → List ℕ → Bool → ℕ → Option ℕ → ℕ → ℕ → W → Res (ℤ × AsyncClient × W)
  unfolding request
  publish_base client topic payload retain qos callback custom thread w =
      request (λ mqtt msg_id w. mqtt_publish net malloc mqtt qos retain msg_id topic payload w)
        (qos == 1) client callback custom thread w

  unfoldable pub publish : AsyncClient → List ℕ → List ℕ → Bool → ℕ → W → Res (ℤ × AsyncClient × W)
  unfolding publish_base
  publish client topic payload retain thread w =
      publish_base client topic payload retain 0 none 0 thread w

  unfoldable pub publish_qos1 :
      AsyncClient → List ℕ → List ℕ → Bool → Option ℕ → ℕ → ℕ → W → Res (ℤ × AsyncClient × W)
  unfolding publish_base
  publish_qos1 client topic payload retain callback custom thread w =
      publish_base client topic payload retain 1 callback custom thread w

  unfoldable pub subscribe :
      AsyncClient → List ℕ → ℕ → Option ℕ → ℕ → ℕ → W → Res (ℤ × AsyncClient × W)
  unfolding request
  subscribe client topic qos callback custom thread w =
      request (λ mqtt msg_id w. mqtt_subscribe net malloc mqtt msg_id topic qos w) true client
        callback custom thread w

  unfoldable pub unsubscribe :
      AsyncClient → List ℕ → Option ℕ → ℕ → ℕ → W → Res (ℤ × AsyncClient × W)
  unfolding request
  unsubscribe client topic callback custom thread w =
      request (λ mqtt msg_id w. mqtt_unsubscribe net malloc mqtt msg_id topic w) true client
        callback custom thread w

  -- The end of `mqtt_async_disconnect`: the connection is closed. The client is freed behind the
  -- last change.
  unfoldable pub close_client : AsyncClient → W → Res (AsyncClient × W)
  unfolding state_change
  close_client client w =
      let gone = state_change client client.state deleted (pos 0) in
      elim client.mqtt [
        | none ↦ ok (gone, w)
        | some mqtt ↦ do (_, w) ← mqtt_disconnect net malloc mqtt w; ok (gone, w)
      ]

  -- `mqtt_async_disconnect`: the thread is joined, so it leaves its loop and clears the table.
  unfoldable pub async_disconnect : AsyncClient → W → Res (AsyncClient × W)
  unfolding state_change close_client
  async_disconnect client w =
      let leaving = state_change client client.state deleting (pos 0) in
      let (qos, calls) = clear leaving.qos err_mqtt_qos_stopping in
      close_client (record leaving { qos = qos; events = leaving.events ++ acknowledged_all calls })
        w

  -- The start of the thread, whose code is `thread_ret`: where it fails, the client is deleted. The
  -- third part is `*connect_error`.
  unfoldable pub start_thread : ℤ → AsyncClient → ℤ → W → Res (ℤ × Option AsyncClient × ℤ × W)
  unfolding state_change close_client
  start_thread thread_ret client connect_error w = elim (is_zero thread_ret) [
    | true ↦ ok (pos 0, some client, connect_error, w)
    | false ↦ do
      (_, w) ← close_client (state_change client client.state deleting (pos 0)) w
      ok (thread_ret, none, connect_error, w)
  ]

  -- From the first change on. A broker that cannot be reached is no failure: the thread connects
  -- again.
  unfoldable pub open_client : ℕ → ℤ → AsyncClient → W → Res (ℤ × Option AsyncClient × ℤ × W)
  unfolding state_change start_thread
  open_client fuel thread_ret fresh w = do
    let client = state_change fresh created connecting (pos 0)
    (ret, mqtt, w) ← mqtt_connect net fuel malloc client.connect_params w
    if is_zero ret
        then start_thread thread_ret
            (state_change (record client { mqtt = mqtt }) connecting connected (pos 0)) (pos 0) w
        else start_thread thread_ret (state_change client connecting broken ret) ret w

  -- `mqtt_async_connect`. The flags tell whether the two callbacks and the third are given, and
  -- whether its calls of `malloc` succeed; `mutex_ret` is the code of `_tr50_mutex_create`.
  unfoldable pub async_connect :
      ℕ
      → ConnectParams
      → Bool
      → Bool
      → Bool
      → Bool
      → ℤ
      → Bool
      → Bool
      → ℤ
      → W
      → Res (ℤ × Option AsyncClient × ℤ × W)
  unfolding open_client
  async_connect fuel params has_publish has_reconnect has_state has_block mutex_ret has_qos
        has_records thread_ret w =
      elim (has_publish && has_reconnect) [
        | false ↦ ok (err_tr50_parms, none, pos 0, w)
        | true ↦ elim has_block [
          | false ↦ ok (err_tr50_malloc, none, pos 0, w)
          | true ↦ elim (is_zero mutex_ret) [
            | false ↦ ok (mutex_ret, none, pos 0, w)
            | true ↦ elim (create has_qos has_records 32 30) [
              | fault ↦ fault
              | stuck ↦ stuck
              | err ret ↦ ok (ret, none, pos 0, w)
              | ok qos ↦ open_client fuel thread_ret (new_async_client params has_state qos) w
            ]
          ]
        ]
      ]

abbrev pub stats_byte_sent : AsyncClient → ℕ
stats_byte_sent client = client.stats_total_byte_sent + mqtt_stats_byte_sent client.mqtt

abbrev pub stats_byte_recv : AsyncClient → ℕ
stats_byte_recv client = client.stats_total_byte_recv + mqtt_stats_byte_recv client.mqtt

unfoldable pub stats_clear : AsyncClient → AsyncClient
stats_clear client = record client {
  stats_total_byte_recv = 0;
  stats_total_byte_sent = 0;
  mqtt = elim client.mqtt [ none ↦ none | some mqtt ↦ some (mqtt_stats_clear mqtt) ];
}
