-- ===== src/Mqtt/Async/Rounds.antt =====
-- A round of the client's thread keeps the client sound.
use libtr.Base.{
  ℕ, zero, suc, ◌+◌, ◌*◌, ◌≡◌, refl, List, ◌++◌, Option, some, Bool, true, not, ◌||◌, length, ltb,
  ◌==◌, arith, ◌∙◌, is_some, Bool-cases, Option-cases, inl, inr,
}
use libtr.Base.Int.{ℤ, pos, is_zero, eq_int}
use libtr.Error.{
  Holds-then, Res, ok, fault, ◌>>=◌, Holds, Holds-bind, err_mqtt_qos_failure, err_tr50_tcp_timeout,
}
use libtr.Memory.{Malloc}
use libtr.Mqtt.Net.{Net}
use libtr.Mqtt.Client.{MqttClient, mqtt_ping, mqtt_disconnect}
use libtr.Mqtt.Recv.{mqtt_recv}
use libtr.Mqtt.Connect.{mqtt_connect}
use libtr.Mqtt.Connect.Outcome.{Linked, mqtt_connect-Linked}
use libtr.Mqtt.Qos.{clear, any_expired}
use libtr.Mqtt.Qos.Slots.{clear_lem}
use libtr.Mqtt.Qos.Expiry.{any_expired_lem}
use libtr.Mqtt.Async.{
  State, connected, broken, reconnecting, is_connected, is_broken, acknowledged_all, AsyncClient,
  state_change,
}
use libtr.Mqtt.Async.Handler.{
  pinged, handler_process, break_connection, keepalive, drop_connection, reconnected, try_reconnect,
  await_reconnect, reconnect, handle_received, receive, check_acks, round,
}
use libtr.Mqtt.Async.Sound.{
  IsSound, state_change-IsSound, acknowledged-IsSound, same-IsSound, Keeps,
}
use libtr.Mqtt.Async.Messages.{break_connection-IsSound, handler_process-Keeps}

abbrev KeepsWorld : {W : Type 0} → Res (AsyncClient × W) → Type 0
KeepsWorld = Holds (λ (client, w). IsSound client)

is_broken-eq : (s : State) → is_broken s ≡ true → s ≡ broken
is_broken-eq broken h = refl
is_broken-eq _ h = cc

pinged-IsSound :
    (client : AsyncClient) (ret : ℤ) (mqtt : MqttClient)
    → IsSound client
    → IsSound (pinged client ret mqtt)
pinged-IsSound client ret mqtt sound = elim (Bool-cases (is_zero ret)) [
  | inl good ↦ rw good (
      same-IsSound client
        (record client { mqtt = some mqtt; outstanding_ping = client.outstanding_ping + 1 }) sound
        sound.valid refl (λ _. refl) refl refl)
  | inr bad ↦
      let linked = record client { mqtt = some mqtt } in
      rw bad (
        break_connection-IsSound linked (pos 0)
          (same-IsSound client linked sound sound.valid refl (λ _. refl) refl refl))
]

-- A client that is not connected needs no connection.
idle-IsSound :
    (client client' : AsyncClient)
    → IsSound client
    → client.state ≡ broken
    → client'.qos ≡ client.qos
    → client'.state ≡ client.state
    → client'.has_state_change_callback ≡ client.has_state_change_callback
    → client'.events ≡ client.events
    → IsSound client'
idle-IsSound client client' sound off qos state has events =
    same-IsSound client client' sound (rw qos sound.valid) state
      (λ on. let e : is_connected broken ≡ true = rw off at on in cc) has events

reconnected-IsSound :
    (client : AsyncClient) (ret : ℤ) (mqtt : Option MqttClient)
    → IsSound client
    → client.state ≡ broken
    → is_some mqtt ≡ is_zero ret
    → IsSound (reconnected client ret mqtt)
unfolding reconnected state_change
reconnected-IsSound client ret mqtt sound off linked =
    let changed = state_change client broken reconnecting (pos 0) in
    let changed_sound =
      state_change-IsSound client broken reconnecting (pos 0) sound off refl (λ h. cc) in
    let trying = record changed {
      stats_reconnect_attempt_count = client.stats_reconnect_attempt_count + 1;
    } in
    let off_line : is_connected reconnecting ≡ true → is_some client.mqtt ≡ true = λ on. cc in
    let trying_sound =
      same-IsSound changed trying changed_sound changed_sound.valid refl off_line refl refl in
    elim (Bool-cases (is_zero ret)) [
      | inl good ↦
          let ready = record trying {
            mqtt = mqtt;
            stats_reconnect_count = client.stats_reconnect_count + 1;
          } in
          let ready_sound =
            same-IsSound changed ready changed_sound changed_sound.valid refl (λ on. linked ∙ good)
              refl refl in
          rw good (
            state_change-IsSound ready reconnecting connected (pos 0) ready_sound refl refl
              (λ on. linked ∙ good))
      | inr bad ↦
          rw bad
            (state_change-IsSound trying reconnecting broken ret trying_sound refl refl (λ on. cc))
    ]

module _ {W : Type 0} (net : Net W) (malloc : Malloc) where
  check_acks-IsSound :
      (ret : ℤ) (client : AsyncClient) (w : W)
      → IsSound client
      → IsSound (check_acks net malloc ret client w)
  unfolding check_acks
  check_acks-IsSound ret client w sound =
      let found = any_expired client.qos (net.time_now_in_sec w) in
      let valid = (any_expired_lem client.qos (net.time_now_in_sec w) 0 sound.valid).0 in
      let checked = record client { qos = found.0 } in
      let checked_sound = same-IsSound client checked sound valid refl sound.linked refl refl in
      let lost = break_connection checked ret in
      let lost_sound = break_connection-IsSound checked ret checked_sound in
      let cleared = clear lost.qos err_mqtt_qos_failure in
      let gone = record lost {
        qos = cleared.0;
        events = lost.events ++ acknowledged_all cleared.1;
      } in
      let gone_sound =
        acknowledged-IsSound lost gone cleared.1 lost_sound
          (clear_lem lost.qos err_mqtt_qos_failure lost_sound.valid).0 refl refl refl refl in
      elim (Bool-cases found.1) [
        | inl expired ↦
            let eq : check_acks net malloc ret client w ≡ gone = rw expired refl in rw eq gone_sound
        | inr fine ↦
            let eq : check_acks net malloc ret client w ≡ checked = rw fine refl in
            rw eq checked_sound
      ]

  keepalive-Keeps :
      (client : AsyncClient) (w : W) → IsSound client → KeepsWorld (keepalive net malloc client w)
  unfolding keepalive
  keepalive-Keeps client w sound =
      let call = keepalive net malloc client w in
      let keepalive_in_ms = client.connect_params.keepalive_in_sec * 1000 in
      elim (Bool-cases (not (is_connected client.state) || keepalive_in_ms == 0)) [
        | inl off ↦ let eq : call ≡ ok (client, w) = ground (arith, off) in rw eq sound
        | inr on ↦ elim (Bool-cases (ltb 1 client.outstanding_ping)) [
          | inl silent ↦
              let lost = break_connection client (pos 0) in
              let lost_sound = break_connection-IsSound client (pos 0) sound in
              let eq : call ≡ ok (record lost { outstanding_ping = 0 }, w) =
                ground (arith, on, silent) in
              rw eq (
                same-IsSound lost (record lost { outstanding_ping = 0 }) lost_sound lost_sound.valid
                  refl lost_sound.linked refl refl)
          | inr heard ↦ elim (Option-cases client.mqtt) [
            | inl no_link ↦ let eq : call ≡ fault = ground (arith, on, heard, no_link) in rw eq tt
            | inr (mqtt, link) ↦
                let now = net.time_now w in
                elim (Bool-cases
                  (ltb (mqtt.last_recv + keepalive_in_ms) (now.0 + client.timeout_in_ms))) [
                    | inr early ↦
                        let eq : call ≡ ok (client, now.1) =
                          ground (arith, on, heard, link, early) in
                        rw eq sound
                    | inl due ↦
                        let sent = mqtt_ping net malloc mqtt now.1 in
                        let eq : call
                            ≡ (sent >>= λ (ret, mqtt, w). ok (pinged client ret mqtt, w)) =
                          ground (arith, on, heard, link, due) in
                        rw eq (
                          Holds-bind (λ (client, w). IsSound client) sent _
                            (λ (ret, mqtt', w') got. pinged-IsSound client ret mqtt' sound))
                  ]
          ]
        ]
      ]

  drop_connection-Keeps :
      (client : AsyncClient) (w : W)
      → IsSound client
      → client.state ≡ broken
      → Holds
          (λ (client', w'). IsSound client' × (client'.state ≡ broken))
          (drop_connection net malloc client w)
  unfolding drop_connection
  drop_connection-Keeps client w sound off = elim (Option-cases client.mqtt) [
    | inl none_left ↦ rw (none_left, drop_connection) (sound, off)
    | inr (mqtt, link) ↦
        rw (link, drop_connection)
          (Holds-bind (λ (client', w'). IsSound client' × (client'.state ≡ broken))
            (mqtt_disconnect net malloc mqtt w) _
            (λ (ret, w') got. (idle-IsSound client _ sound off refl refl refl refl, off)))
  ]

  try_reconnect-Keeps :
      (fuel : ℕ) (client : AsyncClient) (w : W)
      → IsSound client
      → client.state ≡ broken
      → KeepsWorld (try_reconnect net malloc fuel client w)
  unfolding try_reconnect reconnected state_change
  try_reconnect-Keeps fuel client w sound off =
      Holds-then _ (λ (client, w). IsSound client) (drop_connection net malloc client w) _
        (drop_connection-Keeps client w sound off)
        (λ (client', w') (sound', off').
          Holds-then Linked (λ (client, w). IsSound client)
            (mqtt_connect net fuel malloc client'.connect_params w') _
            (mqtt_connect-Linked net fuel malloc client'.connect_params w')
            (λ (ret, mqtt, w'') linked. reconnected-IsSound client' ret mqtt sound' off' linked))

  reconnect-Keeps :
      (fuel total : ℕ) (client : AsyncClient) (w : W)
      → IsSound client
      → KeepsWorld (reconnect net malloc fuel total client w)
  unfolding reconnect
  reconnect-Keeps zero total client w sound = tt
  reconnect-Keeps (suc fuel) total client w sound = elim (Bool-cases (is_broken client.state)) [
    | inr fine ↦ rw (fine, reconnect) sound
    | inl off ↦
        rw (off, reconnect)
          (Holds-then (λ (client, w). IsSound client) (λ (client, w). IsSound client)
            (try_reconnect net malloc fuel client w) _
            (try_reconnect-Keeps fuel client w sound (is_broken-eq client.state off))
            (λ (client', w') sound'. elim (Bool-cases (is_broken client'.state)) [
              | inr fine ↦ rw fine sound'
              | inl off' ↦ rw off' (
                  Holds-bind (λ (client, w). IsSound client)
                    (await_reconnect net malloc fuel client'.timeout_in_ms total 0 w') _
                    (λ (total', w'') got'. reconnect-Keeps fuel total' client' w'' sound'))
            ]))
  ]

  handle_received-Keeps :
      (client : AsyncClient) (ret : ℤ) (bytes : List ℕ) (w : W)
      → IsSound client
      → Keeps (handle_received net malloc client ret bytes w)
  unfolding handle_received
  handle_received-Keeps client ret bytes w sound = elim (Bool-cases (is_zero ret)) [
    | inl got ↦
        rw (got, handle_received)
          (Holds-then (λ (ret, client, w). IsSound client) (λ (ret, client, w). IsSound client)
            (handler_process net malloc client bytes (length bytes) w) _
            (handler_process-Keeps net malloc client bytes (length bytes) w sound)
            (λ (ret', client', w') sound'. sound'))
    | inr lost_read ↦ elim (Bool-cases (eq_int ret err_tr50_tcp_timeout)) [
      | inl late ↦
          let eq : handle_received net malloc client ret bytes w ≡ ok (ret, client, w) =
            ground (arith, lost_read, late) in
          rw eq sound
      | inr lost ↦
          let eq : handle_received net malloc client ret bytes w
              ≡ ok (ret, break_connection client ret, w) =
            ground (arith, lost_read, lost) in
          rw eq (break_connection-IsSound client ret sound)
    ]
  ]

  receive-Keeps :
      (fuel : ℕ) (has_buffer : Bool) (ret : ℤ) (client : AsyncClient) (w : W)
      → IsSound client
      → Keeps (receive net malloc fuel has_buffer ret client w)
  unfolding receive
  receive-Keeps fuel has_buffer ret client w sound =
      let call = receive net malloc fuel has_buffer ret client w in
      elim (Bool-cases (is_connected client.state)) [
        | inr off ↦ rw (off, receive) sound
        | inl on ↦ elim (Option-cases client.mqtt) [
          | inl none_left ↦ let eq : call ≡ fault = ground (arith, on, none_left) in rw eq tt
          | inr (mqtt, link) ↦
              let read = mqtt_recv net fuel has_buffer mqtt client.timeout_in_ms w in
              let eq : call ≡ (
                  read >>= λ (ret, bytes, mqtt, w).
                  handle_received net malloc (record client { mqtt = some mqtt }) ret bytes w) =
                ground (arith, on, link) in
              rw eq (
                Holds-bind (λ (ret, client, w). IsSound client) read _
                  (λ (ret', bytes, mqtt', w') got.
                    handle_received-Keeps (record client { mqtt = some mqtt' }) ret' bytes w'
                      (same-IsSound client _ sound sound.valid refl (λ _. refl) refl refl)))
        ]
      ]

  -- A round of the thread keeps the client sound, whatever the platform and the broker answer: the
  -- table stays consistent, a client that is connected has a connection, and the application is
  -- told of each change of the state in an order that is allowed.
  pub round-Keeps :
      (fuel : ℕ) (has_buffer : Bool) (ret : ℤ) (client : AsyncClient) (w : W)
      → IsSound client
      → Keeps (round net malloc fuel has_buffer ret client w)
  unfolding round
  round-Keeps fuel has_buffer ret client w sound =
      Holds-then (λ (ret, client, w). IsSound client) (λ (ret, client, w). IsSound client)
        (receive net malloc fuel has_buffer ret client w) _
        (receive-Keeps fuel has_buffer ret client w sound)
        (λ (ret1, client1, w1) sound1.
          let checked = check_acks net malloc ret1 client1 w1 in
          Holds-then (λ (client, w). IsSound client) (λ (ret, client, w). IsSound client)
            (keepalive net malloc checked w1) _
            (keepalive-Keeps checked w1 (check_acks-IsSound ret1 client1 w1 sound1))
            (λ (client2, w2) sound2.
              Holds-then (λ (client, w). IsSound client) (λ (ret, client, w). IsSound client)
                (reconnect net malloc fuel 0 client2 w2) _
                (reconnect-Keeps fuel 0 client2 w2 sound2) (λ (client3, w3) sound3. sound3)))
