-- ===== src/Mqtt/Async/Requests.antt =====
-- The requests, the opening and the end of a client keep it sound.
use libtr.Base.{
  is_some, ℕ, ◌+◌, ◌≡◌, refl, List, Option, some, Bool, true, ◌==◌, arith, Bool-cases, inl, inr,
}
use libtr.Base.Int.{ℤ, is_zero}
use libtr.Error.{Res-cases, Res, ok, err, fault, stuck}
use libtr.Memory.{Malloc}
use libtr.Mqtt.Net.{Net}
use libtr.Mqtt.Qos.{add}
use libtr.Mqtt.Qos.Count.{add_lem}
use libtr.Mqtt.Client.{MqttClient, mqtt_publish, mqtt_subscribe, mqtt_unsubscribe}
use libtr.Mqtt.Async.{
  unsubscribe, subscribe, connected, broken, is_connected, AsyncClient, connection_of, msg_id_of,
  end_request, request, publish_base,
}
use libtr.Mqtt.Async.Sound.{is_connected-eq, IsSound, state_change-IsSound, same-IsSound, Keeps}

connection_of-ok :
    (client : AsyncClient) (thread : ℕ) (mqtt : MqttClient)
    → connection_of client thread ≡ ok mqtt
    → (is_connected client.state ≡ true) × (client.mqtt ≡ some mqtt)
unfolding connection_of
connection_of-ok client thread mqtt h = ground arith

module _ {W : Type 0} (net : Net W) (malloc : Malloc) where
  end_request-Keeps :
      (client : AsyncClient) (out : Res (ℤ × MqttClient × W))
      → IsSound client
      → is_connected client.state ≡ true
      → Keeps (end_request net malloc client out)
  unfolding end_request
  end_request-Keeps client (err e) sound on = tt
  end_request-Keeps client fault sound on = tt
  end_request-Keeps client stuck sound on = tt
  end_request-Keeps client (ok (ret, mqtt, w)) sound on =
      let sent = record client { mqtt = some mqtt } in
      let sent_sound = same-IsSound client sent sound sound.valid refl (λ _. refl) refl refl in
      elim (Bool-cases (is_zero ret)) [
        | inl zero_ret ↦ rw zero_ret sent_sound
        | inr lost ↦ rw lost (
            state_change-IsSound sent connected broken ret sent_sound
              (is_connected-eq client.state on) refl (λ h. cc))
      ]

  -- A request keeps the client sound, whatever `send` does: on each of its returns the table is
  -- consistent, a connected client has a connection, and the changes of the state were told.
  pub request-Keeps :
      (send : MqttClient → ℕ → W → Res (ℤ × MqttClient × W)) (wants_ack : Bool)
      (client : AsyncClient) (callback : Option ℕ) (custom thread : ℕ) (w : W)
      → IsSound client
      → Keeps (request net malloc send wants_ack client callback custom thread w)
  unfolding request
  request-Keeps send wants_ack client callback custom thread w sound =
      elim (Res-cases (connection_of client thread)) [
        | inl (mqtt, got) ↦
            let (on, has) = connection_of-ok client thread mqtt got in
            let msg_id = msg_id_of client in
            let next = record client { msg_id_seq = client.msg_id_seq + 1 } in
            let linked : is_connected client.state ≡ true → is_some client.mqtt ≡ true =
              sound.linked in
            let next_sound = same-IsSound client next sound sound.valid refl linked refl refl in
            let call = request net malloc send wants_ack client callback custom thread w in
            elim (Bool-cases wants_ack) [
              | inr bare ↦
                  let eq : call ≡ end_request net malloc next (send mqtt msg_id w) =
                    ground (arith, got, bare) in
                  rw eq (end_request-Keeps next (send mqtt msg_id w) next_sound on)
              | inl wanted ↦
                  let now = net.time_now_in_sec w in
                  let added = add client.qos msg_id callback custom now in
                  let entered = record next { qos = added.0 } in
                  let valid = (add_lem client.qos msg_id callback custom now 0 sound.valid).0 in
                  let entered_sound =
                    same-IsSound client entered sound valid refl linked refl refl in
                  elim (Bool-cases (is_zero added.1)) [
                    | inr full ↦
                        let eq : call ≡ ok (added.1, entered, w) =
                          ground (arith, got, wanted, full) in
                        rw eq entered_sound
                    | inl room ↦
                        let eq : call ≡ end_request net malloc entered (send mqtt msg_id w) =
                          ground (arith, got, wanted, room) in
                        rw eq (end_request-Keeps entered (send mqtt msg_id w) entered_sound on)
                  ]
            ]
        | inr (inl e) ↦ rw (e, request) tt
        | inr (inr (inl e)) ↦ rw (e, request) tt
        | inr (inr (inr (code, e))) ↦ rw (e, request) sound
      ]

  pub publish_base-Keeps :
      (client : AsyncClient) (topic payload : List ℕ) (retain : Bool) (qos : ℕ)
      (callback : Option ℕ) (custom thread : ℕ) (w : W)
      → IsSound client
      → Keeps (publish_base net malloc client topic payload retain qos callback custom thread w)
  unfolding publish_base
  publish_base-Keeps client topic payload retain qos callback custom thread w =
      request-Keeps
        (λ mqtt msg_id w. mqtt_publish net malloc mqtt qos retain msg_id topic payload w) (qos == 1)
        client callback custom thread w

  pub subscribe-Keeps :
      (client : AsyncClient) (topic : List ℕ) (qos : ℕ) (callback : Option ℕ) (custom thread : ℕ)
      (w : W)
      → IsSound client
      → Keeps (subscribe net malloc client topic qos callback custom thread w)
  unfolding subscribe
  subscribe-Keeps client topic qos callback custom thread w =
      request-Keeps (λ mqtt msg_id w. mqtt_subscribe net malloc mqtt msg_id topic qos w) true client
        callback custom thread w

  pub unsubscribe-Keeps :
      (client : AsyncClient) (topic : List ℕ) (callback : Option ℕ) (custom thread : ℕ) (w : W)
      → IsSound client
      → Keeps (unsubscribe net malloc client topic callback custom thread w)
  unfolding unsubscribe
  unsubscribe-Keeps client topic callback custom thread w =
      request-Keeps (λ mqtt msg_id w. mqtt_unsubscribe net malloc mqtt msg_id topic w) true client
        callback custom thread w
