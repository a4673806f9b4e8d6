-- ===== src/Tr50/Client/Starting.antt =====
-- What the start and the stop of a client lead to.
use libtr.Tr50.Pending.Refine.{IsList}
use libtr.Base.{
  ◌⊎◌, ℕ, ◌≤◌, ◌≡◌, refl, List, [], Option, none, some, Bool, true, false, Bool-cases, Option-cases,
  inl, inr, arith,
}
use libtr.Error.{Holds, Holds-bind}
use libtr.Memory.{Malloc}
use libtr.Mqtt.Net.{ConnectParams, Net}
use libtr.Mqtt.Async.{async_connect, async_disconnect}
use libtr.Tr50.Client.{Client, ClientState, Handle, no_client, running, dangling, started, stopped}
use libtr.Tr50.Client.Start.{
  disconnect, null_params, Setup, is_made, create, prepared, params_of, connect_prepared, start,
  stop,
}
use libtr.Tr50.Client.Order.{IsOrdered}

pub create-IsOrdered :
    (malloc : Malloc) (granted : Bool) (client_id host : List ℕ) (port : ℕ)
    → Holds IsOrdered (create malloc granted client_id host port)
unfolding create
create-IsOrdered malloc false client_id host port = tt
create-IsOrdered malloc true client_id host port = record {
  requests = [];
  linked = record { linked = (refl, refl); distinct = tt; counted = refl };
  numbered = omega arith;
  connects = λ h. cc;
}

ClientState-cases : (state : ClientState) → (state ≡ started) ⊎ (state ≡ stopped)
ClientState-cases started = inl refl
ClientState-cases stopped = inr refl

prepared-IsOrdered :
    (client : Client) (params : Option ConnectParams)
    → IsOrdered client
    → (xs : List ℕ) × IsList (prepared client params).pending xs
      × ((prepared client params).seq_id ≤ 65536)
unfolding prepared
prepared-IsOrdered client params order = (order.requests, order.linked, order.numbered)

module _ {W : Type 0} (net : Net W) (malloc : Malloc) where
  -- The end of a start, by what `mqtt_async_connect` returned.
  connect_prepared-IsOrdered :
      (fuel : ℕ) (client : Client) (params : ConnectParams) (setup : Setup) (w : W) (xs : List ℕ)
      → IsList client.pending xs
      → client.seq_id ≤ 65536
      → Holds
          (λ (ret, client', error, w'). IsOrdered client')
          (connect_prepared net malloc fuel client params setup w)
  unfolding connect_prepared
  connect_prepared-IsOrdered fuel client params setup w xs list bound =
      Holds-bind (λ (ret, client', error, w'). IsOrdered client')
        (async_connect net malloc fuel params true true true setup.has_block setup.mutex_ret
          setup.has_qos setup.has_records setup.thread_ret w)
        _
        λ (ret, mqtt, error, w') e. elim (Option-cases mqtt) [
          | inl closed ↦
              rw closed
                (record { requests = xs; linked = list; numbered = bound; connects = λ h. cc })
          | inr (mqtt', up) ↦
              rw up
                (record { requests = xs; linked = list; numbered = bound; connects = λ h. refl })
        ]

  pub start-IsOrdered :
      (fuel : ℕ) (client : Client) (setup : Setup) (w : W)
      → IsOrdered client
      → Holds
          (λ (ret, client', error, w'). IsOrdered client')
          (start net malloc fuel client setup w)
  unfolding start
  start-IsOrdered fuel client setup w order = elim (ClientState-cases client.state) [
    | inl on ↦ rw (on, start) order
    | inr off ↦
        rw (off, start)
          (Holds-bind (λ (ret, client', error, w'). IsOrdered client')
            (params_of malloc client.config) _
            (λ params e. elim (Option-cases params) [
              | inr (p, given) ↦
                  let (xs, list, bound) = prepared-IsOrdered client (some p) order in
                  rw given (
                    connect_prepared-IsOrdered fuel (prepared client (some p)) p setup w xs list
                      bound)
              | inl null ↦ elim (Bool-cases (is_made setup)) [
                | inl made ↦ rw null (rw made tt)
                | inr unmade ↦
                    let (xs, list, bound) = prepared-IsOrdered client none order in
                    rw null (
                      rw unmade (
                        connect_prepared-IsOrdered fuel (prepared client none) null_params setup w
                          xs list bound))
              ]
            ]))
  ]

  disconnect-IsOrdered :
      (client : Client) (handle : Handle) (w : W)
      → IsOrdered client
      → Holds (λ (ret, client', w'). IsOrdered client') (disconnect net malloc client handle w)
  unfolding disconnect
  disconnect-IsOrdered client no_client w order = tt
  disconnect-IsOrdered client dangling w order = tt
  disconnect-IsOrdered client (running mqtt) w order =
      Holds-bind (λ (ret, client', w'). IsOrdered client') (async_disconnect net malloc mqtt w) _
        (λ (gone, w') e. record {
          requests = order.requests;
          linked = order.linked;
          numbered = order.numbered;
          connects = λ h. cc;
        })

  pub stop-IsOrdered :
      (client : Client) (w : W)
      → IsOrdered client
      → Holds (λ (ret, client', w'). IsOrdered client') (stop net malloc client w)
  unfolding stop
  stop-IsOrdered client w order = elim (ClientState-cases client.state) [
    | inr off ↦ rw (off, stop) order
    | inl on ↦ elim (Bool-cases client.is_stopping) [
      | inl busy ↦ rw (on, stop) (rw busy order)
      | inr idle ↦ rw (on, stop) (rw idle (disconnect-IsOrdered client client.mqtt w order))
    ]
  ]
