-- ===== src/Tr50/Client/Mqtt.antt =====
-- The MQTT calls of the application: `tr50_mqtt_subscribe`, `tr50_mqtt_unsubscribe` and
-- `tr50_mqtt_publish` with its kin of tr50.c.
use libtr.Base.{ℕ, List, Option, Bool, true, false, ◌==◌, ◌≡◌, refl, Bool-cases, inl, inr}
use libtr.Base.Int.{ℤ, is_zero}
use libtr.Error.{
  Res, ok, fault, ◌>>=◌, Holds, Holds-then, Holds-bind, err_tr50_async_client_not_connected,
}
use libtr.Memory.{Malloc}
use libtr.Mqtt.Net.{Net}
use libtr.Mqtt.Async.{AsyncClient, publish, publish_qos1, subscribe, unsubscribe}
use libtr.Tr50.Client.{Client, Handle, no_client, running, dangling, not_ready}
use libtr.Tr50.Client.Order.{IsOrdered, is_running}

module _ {W : Type 0} where
  -- A request on `client->mqtt`, which refuses NULL.
  abbrev pub on_handle :
      (AsyncClient → W → Res (ℤ × AsyncClient × W)) → Handle → W → Res (ℤ × Handle × W)
  on_handle request no_client w = ok (err_tr50_async_client_not_connected, no_client, w)
  on_handle request dangling w = fault
  on_handle request (running mqtt) w = do (ret, mqtt, w) ← request mqtt w; ok (ret, running mqtt, w)

  -- What the three functions share: a client that is stopped or stopping is left alone.
  unfoldable pub on_mqtt :
      (AsyncClient → W → Res (ℤ × AsyncClient × W)) → Client → W → Res (ℤ × Client × W)
  unfolding not_ready
  on_mqtt request client w = elim (is_zero (not_ready client)) [
    | false ↦ ok (not_ready client, client, w)
    | true ↦ do
      (ret, mqtt, w) ← on_handle request client.mqtt w
      ok (ret, record client { mqtt = mqtt }, w)
  ]

  on_handle-running :
      (request : AsyncClient → W → Res (ℤ × AsyncClient × W)) (handle : Handle) (w : W)
      → Holds
          (λ (ret, handle', w'). is_running handle ≡ true → is_running handle' ≡ true)
          (on_handle request handle w)
  on_handle-running request no_client w = λ e. e
  on_handle-running request dangling w = tt
  on_handle-running request (running mqtt) w =
      Holds-bind
        (λ (ret, handle', w'). is_running (running mqtt) ≡ true → is_running handle' ≡ true)
        (request mqtt w) (λ (ret, mqtt, w). ok (ret, running mqtt, w)) (λ out e h. refl)

  -- A request neither starts nor stops the client, and does not touch its list of calls.
  pub on_mqtt-IsOrdered :
      (request : AsyncClient → W → Res (ℤ × AsyncClient × W)) (client : Client) (w : W)
      → IsOrdered client
      → Holds (λ (ret, client', w'). IsOrdered client') (on_mqtt request client w)
  unfolding on_mqtt
  on_mqtt-IsOrdered request client w order = elim (Bool-cases (is_zero (not_ready client))) [
    | inr refused ↦ rw (refused, on_mqtt) order
    | inl serves ↦
        rw (serves, on_mqtt)
          (Holds-then
            (λ (ret, handle', w'). is_running client.mqtt ≡ true → is_running handle' ≡ true)
            (λ (ret, client', w'). IsOrdered client') (on_handle request client.mqtt w)
            (λ (ret, mqtt, w). ok (ret, record client { mqtt = mqtt }, w))
            (on_handle-running request client.mqtt w)
            (λ out kept. record {
              requests = order.requests;
              linked = order.linked;
              numbered = order.numbered;
              connects = λ on. kept (order.connects on);
            }))
  ]

module _ {W : Type 0} (net : Net W) (malloc : Malloc) where
  unfoldable pub tr50_subscribe : Client → List ℕ → ℕ → Option ℕ → ℕ → ℕ → W → Res (ℤ × Client × W)
  unfolding on_mqtt
  tr50_subscribe client topic_filter qos callback custom thread w =
      on_mqtt (λ mqtt w. subscribe net malloc mqtt topic_filter qos callback custom thread w) client
        w

  unfoldable pub tr50_unsubscribe : Client → List ℕ → Option ℕ → ℕ → ℕ → W → Res (ℤ × Client × W)
  unfolding on_mqtt
  tr50_unsubscribe client topic_filter callback custom thread w =
      on_mqtt (λ mqtt w. unsubscribe net malloc mqtt topic_filter callback custom thread w) client w

  unfoldable pub tr50_publish_base :
      Client → List ℕ → List ℕ → Bool → ℕ → Option ℕ → ℕ → ℕ → W → Res (ℤ × Client × W)
  unfolding on_mqtt
  tr50_publish_base client topic payload retain qos callback custom thread w = elim (qos == 0) [
    | true ↦ on_mqtt (λ mqtt w. publish net malloc mqtt topic payload retain thread w) client w
    | false ↦
        on_mqtt
          (λ mqtt w. publish_qos1 net malloc mqtt topic payload retain callback custom thread w)
          client w
  ]

  pub tr50_subscribe-IsOrdered :
      (client : Client) (topic_filter : List ℕ) (qos : ℕ) (callback : Option ℕ) (custom thread : ℕ)
      (w : W)
      → IsOrdered client
      → Holds
          (λ (ret, client', w'). IsOrdered client')
          (tr50_subscribe client topic_filter qos callback custom thread w)
  unfolding tr50_subscribe
  tr50_subscribe-IsOrdered client topic_filter qos callback custom thread w order =
      on_mqtt-IsOrdered
        (λ mqtt w. subscribe net malloc mqtt topic_filter qos callback custom thread w) client w
        order

  pub tr50_unsubscribe-IsOrdered :
      (client : Client) (topic_filter : List ℕ) (callback : Option ℕ) (custom thread : ℕ) (w : W)
      → IsOrdered client
      → Holds
          (λ (ret, client', w'). IsOrdered client')
          (tr50_unsubscribe client topic_filter callback custom thread w)
  unfolding tr50_unsubscribe
  tr50_unsubscribe-IsOrdered client topic_filter callback custom thread w order =
      on_mqtt-IsOrdered
        (λ mqtt w. unsubscribe net malloc mqtt topic_filter callback custom thread w) client w order

  pub tr50_publish_base-IsOrdered :
      (client : Client) (topic payload : List ℕ) (retain : Bool) (qos : ℕ) (callback : Option ℕ)
      (custom thread : ℕ) (w : W)
      → IsOrdered client
      → Holds
          (λ (ret, client', w'). IsOrdered client')
          (tr50_publish_base client topic payload retain qos callback custom thread w)
  unfolding tr50_publish_base
  tr50_publish_base-IsOrdered client topic payload retain qos callback custom thread w order =
      elim (Bool-cases (qos == 0)) [
        | inl least ↦
            rw (least, tr50_publish_base)
              (on_mqtt-IsOrdered (λ mqtt w. publish net malloc mqtt topic payload retain thread w)
                client w order)
        | inr once ↦
            rw (once, tr50_publish_base)
              (on_mqtt-IsOrdered
                (λ mqtt w.
                  publish_qos1 net malloc mqtt topic payload retain callback custom thread w)
                client w order)
      ]
