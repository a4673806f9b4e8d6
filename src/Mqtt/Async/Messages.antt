-- ===== src/Mqtt/Async/Messages.antt =====
-- The handling of a message that was received keeps the client sound.
use libtr.Base.{
  is_some, ℕ, ◌≡◌, refl, List, [], ◌∷◌, ◌++◌, Option, some, true, ltb, ◌==◌, arith, Bool-cases,
  Option-cases, inl, inr,
}
use libtr.Base.Int.{ℤ, pos}
use libtr.Error.{Res, ok, err, fault, stuck, ◌>>=◌, Res-cases, Holds-bind}
use libtr.Memory.{Malloc}
use libtr.Mqtt.Types.{
  msg_type_publish, msg_type_pingresp, msg_type_puback, msg_type_suback, msg_type_unsuback,
}
use libtr.Mqtt.Net.{Net}
use libtr.Mqtt.Process.{
  Publish, cmd_get, process_publish, process_puback, process_suback, process_unsuback,
}
use libtr.Mqtt.Client.{mqtt_puback}
use libtr.Mqtt.Qos.{signal}
use libtr.Mqtt.Qos.Slots.{signal_lem}
use libtr.Mqtt.Async.{
  created, connected, broken, is_connected, published, acknowledged_all, AsyncClient,
}
use libtr.Mqtt.Async.Handler.{
  acknowledge, deliver, dispatch, beside, handler_process, break_connection,
}
use libtr.Mqtt.Async.Sound.{
  is_connected-eq, follow-append, IsSound, state_change-IsSound, acknowledged-IsSound, same-IsSound,
  Keeps,
}

abbrev KeepsClient : Res (ℤ × AsyncClient) → Type 0
KeepsClient (ok (ret, client)) = IsSound client
KeepsClient _ = Unit {0}

acknowledge-Keeps :
    (client : AsyncClient) (id : Res ℕ) → IsSound client → KeepsClient (acknowledge client id)
unfolding acknowledge
acknowledge-Keeps client (err ret) sound = sound
acknowledge-Keeps client fault sound = tt
acknowledge-Keeps client stuck sound = tt
acknowledge-Keeps client (ok msg_id) sound =
    let got = signal client.qos msg_id in
    acknowledged-IsSound client
      (record client { qos = got.0; events = client.events ++ acknowledged_all got.2 }) got.2 sound
      (signal_lem client.qos msg_id 0 sound.valid).0 refl refl refl refl

pub break_connection-IsSound :
    (client : AsyncClient) (error : ℤ) → IsSound client → IsSound (break_connection client error)
unfolding break_connection
break_connection-IsSound client error sound = elim (Bool-cases (is_connected client.state)) [
  | inl on ↦ rw on (
      state_change-IsSound client connected broken error sound (is_connected-eq client.state on)
        refl (λ h. cc))
  | inr off ↦ rw off sound
]

-- The callback of a message that was received tells of no change.
published-IsSound :
    (client client' : AsyncClient) (topic payload : Option (List ℕ)) (len : ℤ)
    → IsSound client
    → client'.qos ≡ client.qos
    → client'.state ≡ client.state
    → (is_connected client.state ≡ true → is_some client'.mqtt ≡ true)
    → client'.has_state_change_callback ≡ client.has_state_change_callback
    → client'.events ≡ client.events ++ (published topic payload len ∷ [])
    → IsSound client'
published-IsSound client client' topic payload len sound qos state linked has events = record {
  valid = rw qos sound.valid;
  linked = λ h. linked (rw state at h);
  told = λ callback.
      rw (events, state)
        (follow-append created client.state client.events (published topic payload len ∷ [])
          (sound.told (rw has at callback)));
}

beside-Keeps :
    {W : Type 0} (client : AsyncClient) (w : W) (id : Res ℕ)
    → IsSound client
    → Keeps (beside w (acknowledge client id))
beside-Keeps client w id sound = go (acknowledge client id) (acknowledge-Keeps client id sound)
  where
    go : (out : Res (ℤ × AsyncClient)) → KeepsClient out → Keeps (beside w out)
    go (ok (ret, client')) h = h
    go (err e) h = tt
    go fault h = tt
    go stuck h = tt

module _ {W : Type 0} (net : Net W) (malloc : Malloc) where
  deliver-Keeps :
      (client : AsyncClient) (msg : Publish) (w : W)
      → IsSound client
      → Keeps (deliver net malloc client msg w)
  unfolding deliver
  deliver-Keeps client msg w sound =
      let told = client.events ++ (published msg.topic msg.payload msg.payload_len ∷ []) in
      let call = deliver net malloc client msg w in
      elim (Bool-cases (ltb 0 msg.qos)) [
        | inr bare ↦
            let heard = record client { events = told } in
            let eq : call ≡ ok (pos 0, heard, w) = ground (arith, bare) in
            rw eq (
              published-IsSound client heard msg.topic msg.payload msg.payload_len sound refl refl
                sound.linked refl refl)
        | inl above ↦ elim (Option-cases msg.msg_id) [
          | inl no_id ↦ let eq : call ≡ fault = ground (arith, above, no_id) in rw eq tt
          | inr (msg_id, id) ↦ elim (Option-cases client.mqtt) [
            | inl off ↦ let eq : call ≡ fault = ground (arith, above, id, off) in rw eq tt
            | inr (mqtt, on) ↦
                let sent = mqtt_puback net malloc mqtt msg_id msg.qos w in
                let eq : call ≡ (
                    sent >>= λ (_, mqtt, w).
                    ok (pos 0, record client { mqtt = some mqtt; events = told }, w)) =
                  ground (arith, above, id, on) in
                rw eq (
                  Holds-bind (λ (ret, client, w). IsSound client) sent _
                    (λ (ret, mqtt', w') got.
                      published-IsSound client (record client { mqtt = some mqtt'; events = told })
                        msg.topic msg.payload msg.payload_len sound refl refl (λ _. refl) refl
                        refl))
          ]
        ]
      ]

  dispatch-Keeps :
      (cmd : ℕ) (client : AsyncClient) (buf : List ℕ) (len : ℕ) (w : W)
      → IsSound client
      → Keeps (dispatch net malloc cmd client buf len w)
  unfolding dispatch
  dispatch-Keeps cmd client buf len w sound =
      let call = dispatch net malloc cmd client buf len w in
      elim (Bool-cases (cmd == msg_type_publish)) [
        | inl publish ↦ elim (Res-cases (process_publish malloc buf len)) [
          | inl (msg, e) ↦
              let eq : call ≡ deliver net malloc client msg w = ground (arith, publish, e) in
              rw eq (deliver-Keeps client msg w sound)
          | inr (inl e) ↦ let eq : call ≡ fault = ground (arith, publish, e) in rw eq tt
          | inr (inr (inl e)) ↦ let eq : call ≡ stuck = ground (arith, publish, e) in rw eq tt
          | inr (inr (inr (code, e))) ↦
              let eq : call ≡ ok (code, client, w) = ground (arith, publish, e) in rw eq sound
        ]
        | inr p1 ↦ elim (Bool-cases (cmd == msg_type_pingresp)) [
          | inl ping ↦
              let heard = record client { outstanding_ping = 0 } in
              let eq : call ≡ ok (pos 0, heard, w) = ground (arith, p1, ping) in
              rw eq (same-IsSound client heard sound sound.valid refl sound.linked refl refl)
          | inr p2 ↦ elim (Bool-cases (cmd == msg_type_puback)) [
            | inl ack ↦
                let eq : call ≡ beside w (acknowledge client (process_puback buf len)) =
                  ground (arith, p1, p2, ack) in
                rw eq (beside-Keeps client w (process_puback buf len) sound)
            | inr p3 ↦ elim (Bool-cases (cmd == msg_type_suback)) [
              | inl ack ↦
                  let id = process_suback buf len >>= λ (msg_id, qos). ok msg_id in
                  let eq : call ≡ beside w (acknowledge client id) =
                    ground (arith, p1, p2, p3, ack) in
                  rw eq (beside-Keeps client w id sound)
              | inr p4 ↦ elim (Bool-cases (cmd == msg_type_unsuback)) [
                | inl ack ↦
                    let eq : call ≡ beside w (acknowledge client (process_unsuback buf len)) =
                      ground (arith, p1, p2, p3, p4, ack) in
                    rw eq (beside-Keeps client w (process_unsuback buf len) sound)
                | inr p5 ↦
                    let eq : call ≡ ok (pos 0, client, w) = ground (arith, p1, p2, p3, p4, p5) in
                    rw eq sound
              ]
            ]
          ]
        ]
      ]

  -- `_mqtt_async_handler_process` keeps the client sound, whatever the message is.
  pub handler_process-Keeps :
      (client : AsyncClient) (buf : List ℕ) (len : ℕ) (w : W)
      → IsSound client
      → Keeps (handler_process net malloc client buf len w)
  unfolding handler_process
  handler_process-Keeps client buf len w sound =
      Holds-bind (λ (ret, client, w). IsSound client) (cmd_get buf) _
        (λ cmd got. dispatch-Keeps cmd client buf len w sound)
