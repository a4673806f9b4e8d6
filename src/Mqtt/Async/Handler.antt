-- ===== src/Mqtt/Async/Handler.antt =====
-- The thread of the client: `_mqtt_async_handler` of mqtt/mqtt.async.c and what it calls.
-- A round of its loop is a step; other threads run between the steps and not within them.
use libtr.Base.{
  ℕ, zero, suc, ◌+◌, ◌*◌, List, [], ◌∷◌, ◌++◌, Option, none, some, Bool, true, false, not, ◌||◌,
  length, ltb, ◌==◌, if◌then◌else◌,
}
use libtr.Base.Int.{ℤ, pos, is_zero, eq_int}
use libtr.Error.{Res, ok, err, fault, stuck, ◌>>=◌, err_tr50_tcp_timeout, err_mqtt_qos_failure}
use libtr.Memory.{Malloc}
use libtr.Mqtt.Types.{
  msg_type_publish, msg_type_pingresp, msg_type_puback, msg_type_suback, msg_type_unsuback,
}
use libtr.Mqtt.Net.{Net}
use libtr.Mqtt.Process.{
  Publish, cmd_get, process_publish, process_puback, process_suback, process_unsuback,
}
use libtr.Mqtt.Client.{MqttClient, mqtt_puback, mqtt_ping, mqtt_disconnect}
use libtr.Mqtt.Recv.{mqtt_recv}
use libtr.Mqtt.Connect.{mqtt_connect}
use libtr.Mqtt.Qos.{signal, clear, any_expired}
use libtr.Mqtt.Async.{
  connected, broken, reconnecting, is_connected, is_broken, published, acknowledged_all,
  AsyncClient, state_change,
}

-- An acknowledgement that was decoded: the record that waits for it is given up.
unfoldable pub acknowledge : AsyncClient → Res ℕ → Res (ℤ × AsyncClient)
acknowledge client (ok msg_id) =
    let (qos, _, calls) = signal client.qos msg_id in
    ok (pos 0, record client { qos = qos; events = client.events ++ acknowledged_all calls })
acknowledge client (err ret) = ok (ret, client)
acknowledge client fault = fault
acknowledge client stuck = stuck

-- The change of a client that is connected; any other state stays.
unfoldable pub break_connection : AsyncClient → ℤ → AsyncClient
unfolding state_change
break_connection client error =
    if is_connected client.state then state_change client connected broken error else client

-- The client behind a try to connect that returned `ret`.
unfoldable pub reconnected : AsyncClient → ℤ → Option MqttClient → AsyncClient
unfolding state_change
reconnected client ret mqtt =
    let changed = state_change client broken reconnecting (pos 0) in
    let trying = record changed {
      stats_reconnect_attempt_count = client.stats_reconnect_attempt_count + 1;
    } in
    if is_zero ret
    then state_change
        (record trying { mqtt = mqtt; stats_reconnect_count = client.stats_reconnect_count + 1 })
        reconnecting connected (pos 0)
    else state_change trying reconnecting broken ret

-- The client behind a ping that returned `ret`.
abbrev pub pinged : AsyncClient → ℤ → MqttClient → AsyncClient
pinged client ret mqtt =
    if is_zero ret
    then record client { mqtt = some mqtt; outstanding_ping = client.outstanding_ping + 1 }
    else break_connection (record client { mqtt = some mqtt }) (pos 0)

abbrev pub beside : {W : Type 0} → W → Res (ℤ × AsyncClient) → Res (ℤ × AsyncClient × W)
beside w out = out >>= λ (ret, client). ok (ret, client, w)

module _ {W : Type 0} (net : Net W) (malloc : Malloc) where
  -- The end of the handling of PUBLISH: above QoS 0 the answer is sent, whatever its code.
  unfoldable pub deliver : AsyncClient → Publish → W → Res (ℤ × AsyncClient × W)
  deliver client msg w =
      let told = client.events ++ (published msg.topic msg.payload msg.payload_len ∷ []) in
      elim (ltb 0 msg.qos) [
        | false ↦ ok (pos 0, record client { events = told }, w)
        | true ↦ elim msg.msg_id [
          | none ↦ fault
          | some msg_id ↦ elim client.mqtt [
            | none ↦ fault
            | some mqtt ↦ do
              (_, mqtt, w) ← mqtt_puback net malloc mqtt msg_id msg.qos w
              ok (pos 0, record client { mqtt = some mqtt; events = told }, w)
          ]
        ]
      ]

  -- What `_mqtt_async_handler_process` does with a message of the type `cmd`.
  unfoldable pub dispatch : ℕ → AsyncClient → List ℕ → ℕ → W → Res (ℤ × AsyncClient × W)
  unfolding acknowledge deliver
  dispatch cmd client buf len w = elim (cmd == msg_type_publish) [
    | true ↦ elim (process_publish malloc buf len) [
      | ok msg ↦ deliver client msg w
      | err ret ↦ ok (ret, client, w)
      | fault ↦ fault
      | stuck ↦ stuck
    ]
    | false ↦ elim (cmd == msg_type_pingresp) [
      | true ↦ ok (pos 0, record client { outstanding_ping = 0 }, w)
      | false ↦ elim (cmd == msg_type_puback) [
        | true ↦ beside w (acknowledge client (process_puback buf len))
        | false ↦ elim (cmd == msg_type_suback) [
          | true ↦
              beside w (acknowledge client (process_suback buf len >>= λ (msg_id, qos). ok msg_id))
          | false ↦ elim (cmd == msg_type_unsuback) [
            | true ↦ beside w (acknowledge client (process_unsuback buf len))
            | false ↦ ok (pos 0, client, w)
          ]
        ]
      ]
    ]
  ]

  unfoldable pub handler_process : AsyncClient → List ℕ → ℕ → W → Res (ℤ × AsyncClient × W)
  unfolding dispatch
  handler_process client buf len w = do cmd ← cmd_get buf; dispatch cmd client buf len w

  -- `_mqtt_async_handler_keepalive`; `last_recv` stands in the connection.
  unfoldable pub keepalive : AsyncClient → W → Res (AsyncClient × W)
  unfolding break_connection
  keepalive client w =
      let keepalive_in_ms = client.connect_params.keepalive_in_sec * 1000 in
      elim (not (is_connected client.state) || keepalive_in_ms == 0) [
        | true ↦ ok (client, w)
        | false ↦ elim (ltb 1 client.outstanding_ping) [
          | true ↦ ok (record (break_connection client (pos 0)) { outstanding_ping = 0 }, w)
          | false ↦ elim client.mqtt [
            | none ↦ fault
            | some mqtt ↦
                let (now, w) = net.time_now w in
                elim (ltb (mqtt.last_recv + keepalive_in_ms) (now + client.timeout_in_ms)) [
                  | false ↦ ok (client, w)
                  | true ↦ do
                    (ret, mqtt, w) ← mqtt_ping net malloc mqtt w
                    ok (pinged client ret mqtt, w)
                ]
          ]
        ]
      ]

  -- The old connection is closed, and its counts are added up.
  unfoldable pub drop_connection : AsyncClient → W → Res (AsyncClient × W)
  drop_connection client w = elim client.mqtt [
    | none ↦ ok (client, w)
    | some mqtt ↦ do
      (_, w) ← mqtt_disconnect net malloc mqtt w
      ok (
        record client {
          stats_total_byte_recv = client.stats_total_byte_recv + mqtt.byte_recv;
          stats_total_byte_sent = client.stats_total_byte_sent + mqtt.byte_sent;
          mqtt = none;
        },
        w,
      )
  ]

  -- One try to connect again.
  unfoldable pub try_reconnect : ℕ → AsyncClient → W → Res (AsyncClient × W)
  unfolding drop_connection reconnected
  try_reconnect fuel client w = do
    (client, w) ← drop_connection client w
    (ret, mqtt, w) ← mqtt_connect net fuel malloc client.connect_params w
    ok (reconnected client ret mqtt, w)

  -- The wait until the application wants to connect again.
  unfoldable pub await_reconnect : ℕ → ℕ → ℕ → ℕ → W → Res (ℕ × W)
  await_reconnect zero timeout total counter w = stuck
  await_reconnect (suc fuel) timeout total counter w =
      let (wanted, w) = net.should_reconnect w total counter in
      elim wanted [
        | true ↦ ok (total, w)
        | false ↦ await_reconnect fuel timeout (total + timeout) (counter + timeout) w
      ]

  -- `_mqtt_async_handler_reconnect`.
  unfoldable pub reconnect : ℕ → ℕ → AsyncClient → W → Res (AsyncClient × W)
  unfolding try_reconnect await_reconnect
  reconnect zero total client w = stuck
  reconnect (suc fuel) total client w = elim (is_broken client.state) [
    | false ↦ ok (client, w)
    | true ↦ do
      (client, w) ← try_reconnect fuel client w
      elim (is_broken client.state) [
        | false ↦ ok (client, w)
        | true ↦ do
          (total, w) ← await_reconnect fuel client.timeout_in_ms total 0 w
          reconnect fuel total client w
      ]
  ]

  -- What the loop does with the return of `mqtt_recv`; the first part is `ret` behind it.
  unfoldable pub handle_received : AsyncClient → ℤ → List ℕ → W → Res (ℤ × AsyncClient × W)
  unfolding handler_process break_connection
  handle_received client ret bytes w = elim (is_zero ret) [
    | true ↦ do (_, client, w) ← handler_process client bytes (length bytes) w; ok (ret, client, w)
    | false ↦
        ok (
          ret,
          (if eq_int ret err_tr50_tcp_timeout then client else break_connection client ret),
          w,
        )
  ]

  -- The reading at the top of the loop.
  unfoldable pub receive : ℕ → Bool → ℤ → AsyncClient → W → Res (ℤ × AsyncClient × W)
  unfolding handle_received
  receive fuel has_buffer ret client w = elim (is_connected client.state) [
    | false ↦ ok (ret, client, w)
    | true ↦ elim client.mqtt [
      | none ↦ fault
      | some mqtt ↦ do
        (ret, bytes, mqtt, w) ← mqtt_recv net fuel has_buffer mqtt client.timeout_in_ms w
        handle_received (record client { mqtt = some mqtt }) ret bytes w
    ]
  ]

  -- The search for an acknowledgement that did not come.
  unfoldable pub check_acks : ℤ → AsyncClient → W → AsyncClient
  unfolding break_connection
  check_acks ret client w =
      let (qos, expired) = any_expired client.qos (net.time_now_in_sec w) in
      let checked = record client { qos = qos } in
      if expired
      then (let lost = break_connection checked ret in
          let (qos, calls) = clear lost.qos err_mqtt_qos_failure in
          record lost { qos = qos; events = lost.events ++ acknowledged_all calls })
      else checked

  -- A round of the loop of `_mqtt_async_handler`; `ret` is what the variable holds before it.
  unfoldable pub round : ℕ → Bool → ℤ → AsyncClient → W → Res (ℤ × AsyncClient × W)
  unfolding receive check_acks keepalive reconnect
  round fuel has_buffer ret client w = do
    (ret, client, w) ← receive fuel has_buffer ret client w
    (client, w) ← keepalive (check_acks ret client w) w
    (client, w) ← reconnect fuel 0 client w
    ok (ret, client, w)
