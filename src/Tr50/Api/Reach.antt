-- ===== src/Tr50/Api/Reach.antt =====
-- What holds in each client that a sequence of calls, messages and sweeps leads to.
use mathlib.Core.Path.{subst}
use libtr.Base.{ℕ, refl, ◌≡◌, ◌≢◌, List, Option, some, Bool}
use libtr.Base.Int.{ℤ}
use libtr.Error.{Res, ok, err, Holds}
use libtr.Memory.{Malloc}
use libtr.Mqtt.Net.{Net}
use libtr.Mqtt.Async.{AsyncClient}
use libtr.Tr50.Client.{Client, running, current_status}
use libtr.Tr50.Client.Start.{Setup, create, start, stop}
use libtr.Tr50.Client.Handlers.{publish_handler, state_change_handler}
use libtr.Tr50.Client.Order.{
  IsOrdered, status-IsOrdered, pending-IsOrdered, publish_handler-IsOrdered,
  state_change_handler-IsOrdered,
}
use libtr.Tr50.Client.Mqtt.{
  tr50_subscribe, tr50_unsubscribe, tr50_publish_base, tr50_subscribe-IsOrdered,
  tr50_unsubscribe-IsOrdered, tr50_publish_base-IsOrdered,
}
use libtr.Tr50.Client.Starting.{create-IsOrdered, start-IsOrdered, stop-IsOrdered}
use libtr.Tr50.Config.{Config}
use libtr.Tr50.Pending.{Message, write}
use libtr.Tr50.Pending.Segment.{NotIn}
use libtr.Tr50.Pending.Refine.{IsList}
use libtr.Tr50.Api.Call.{sweep_at, call_async, raw_async}
use libtr.Tr50.Api.Ownership.{write-IsList}
use libtr.Tr50.Api.Life.{IsFresh, sweep_at-IsOrdered, call_async-IsOrdered, raw_async-IsOrdered}

module _ {W : Type 0} (net : Net W) (malloc : Malloc) where
  pub data Lives : Client → Type 0 where
    made :
        (granted : Bool) (client_id host : List ℕ) (port : ℕ) (client : Client)
        → create malloc granted client_id host port ≡ ok client
        → Lives client
    -- The application changes the configuration.
    configured :
        (client : Client) (config : Config)
        → Lives client
        → Lives (record client { config = config })
    -- The application makes a message, or writes to one that it owns.
    composed :
        (client : Client) (message : ℕ) (m : Message)
        → ((xs : List ℕ) → IsList client.pending xs → NotIn message xs)
        → Lives client
        → Lives (record client {
          pending = record client.pending { store = write client.pending.store message m };
        })
    start_called :
        (fuel : ℕ) (setup : Setup) (w w' : W) (client client' : Client) (ret error : ℤ)
        → start net malloc fuel client setup w ≡ ok (ret, client', error, w')
        → Lives client
        → Lives client'
    stop_called :
        (w w' : W) (client client' : Client) (ret : ℤ)
        → stop net malloc client w ≡ ok (ret, client', w')
        → Lives client
        → Lives client'
    call_made :
        (client client' : Client) (message : ℕ) (m : Message) (callback : Option ℕ)
        (custom timeout : ℕ) (to_string : Res (List ℕ)) (deflate : List ℕ → Res (List ℕ)) (now : ℕ)
        (meanwhile : Option ℕ) (thread : ℕ) (w w' : W) (ret : ℤ)
        → IsFresh net malloc client message m
        → call_async net malloc client message callback custom timeout to_string deflate now
            meanwhile thread w
          ≡ ok (ret, client', w')
        → Lives client
        → Lives client'
    -- A raw call whose compression does not fail.
    raw_call_made :
        (client client' : Client) (message : ℕ) (request : List ℕ) (callback : Option ℕ)
        (custom timeout : ℕ) (deflate : List ℕ → Res (List ℕ)) (now : ℕ) (meanwhile : Option ℕ)
        (thread : ℕ) (w w' : W) (ret : ℤ)
        → ((xs : List ℕ) → IsList client.pending xs → NotIn message xs)
        → ((ret : ℤ) → deflate request ≢ err ret)
        → raw_async net malloc client
            (some message)
            request
            callback
            custom
            timeout
            deflate
            now
            meanwhile
            thread
            w
          ≡ ok (ret, client', w')
        → Lives client
        → Lives client'
    received :
        (from_string : List ℕ → Res Bool) (inflate : List ℕ → Res (List ℕ))
        (client client' : Client) (topic text : List ℕ) (sent : ℤ)
        → publish_handler from_string inflate client topic text sent ≡ ok client'
        → Lives client
        → Lives client'
    told :
        (client : Client) (previous current : ℕ) (error : ℤ) (why : List ℕ) (now : ℕ)
        → Lives client
        → Lives (state_change_handler client previous current error why now)
    swept :
        (client client' : Client) (now : ℕ)
        → sweep_at (some now) client ≡ ok client'
        → Lives client
        → Lives client'
    -- The application subscribes, unsubscribes or publishes.
    subscribed :
        (client client' : Client) (topic_filter : List ℕ) (qos : ℕ) (callback : Option ℕ)
        (custom thread : ℕ) (w w' : W) (ret : ℤ)
        → tr50_subscribe net malloc client topic_filter qos callback custom thread w
          ≡ ok (ret, client', w')
        → Lives client
        → Lives client'
    unsubscribed :
        (client client' : Client) (topic_filter : List ℕ) (callback : Option ℕ) (custom thread : ℕ)
        (w w' : W) (ret : ℤ)
        → tr50_unsubscribe net malloc client topic_filter callback custom thread w
          ≡ ok (ret, client', w')
        → Lives client
        → Lives client'
    published :
        (client client' : Client) (topic payload : List ℕ) (retain : Bool) (qos : ℕ)
        (callback : Option ℕ) (custom thread : ℕ) (w w' : W) (ret : ℤ)
        → tr50_publish_base net malloc client topic payload retain qos callback custom thread w
          ≡ ok (ret, client', w')
        → Lives client
        → Lives client'
    -- The thread of the MQTT client runs.
    moved :
        (client : Client) (mqtt mqtt' : AsyncClient)
        → client.mqtt ≡ running mqtt
        → Lives client
        → Lives (record client { mqtt = running mqtt' })

  lives-IsOrdered : (client : Client) → Lives client → IsOrdered client
  lives-IsOrdered _ (made granted client_id host port client e) =
      subst (Holds IsOrdered) e (create-IsOrdered malloc granted client_id host port)
  lives-IsOrdered _ (configured client config life) =
      let order = lives-IsOrdered client life in
      record {
        requests = order.requests;
        linked = order.linked;
        numbered = order.numbered;
        connects = order.connects;
      }
  lives-IsOrdered _ (composed client message m apart life) =
      let order = lives-IsOrdered client life in
      pending-IsOrdered client _ order.requests order (
        write-IsList client.pending order.requests message m order.linked
          (apart order.requests order.linked))
  lives-IsOrdered _ (start_called fuel setup w w' client client' ret error e life) =
      subst (Holds (λ (ret, client', error, w'). IsOrdered client')) e
        (start-IsOrdered net malloc fuel client setup w (lives-IsOrdered client life))
  lives-IsOrdered _ (stop_called w w' client client' ret e life) =
      subst (Holds (λ (ret, client', w'). IsOrdered client')) e
        (stop-IsOrdered net malloc client w (lives-IsOrdered client life))
  lives-IsOrdered _
        (call_made client client' message m callback custom timeout to_string deflate now meanwhile
          thread w w' ret fresh e life) =
      subst (Holds (λ (ret, client', w'). IsOrdered client')) e (
        call_async-IsOrdered net malloc client message m callback custom timeout to_string deflate
          now meanwhile thread w (lives-IsOrdered client life) fresh)
  lives-IsOrdered _
        (raw_call_made client client' message request callback custom timeout deflate now meanwhile
          thread w w' ret apart deflates e life) =
      subst (Holds (λ (ret, client', w'). IsOrdered client')) e (
        raw_async-IsOrdered net malloc client message request callback custom timeout deflate now
          meanwhile thread w (lives-IsOrdered client life) apart deflates)
  lives-IsOrdered _ (received from_string inflate client client' topic text sent e life) =
      subst (Holds IsOrdered) e (
        publish_handler-IsOrdered from_string inflate client topic text sent
          (lives-IsOrdered client life))
  lives-IsOrdered _ (told client previous current error why now life) =
      state_change_handler-IsOrdered client previous current error why now
        (lives-IsOrdered client life)
  lives-IsOrdered _ (swept client client' now e life) =
      subst (Holds IsOrdered) e (sweep_at-IsOrdered (some now) client (lives-IsOrdered client life))
  lives-IsOrdered _
        (subscribed client client' topic_filter qos callback custom thread w w' ret e life) =
      subst (Holds (λ (ret, client', w'). IsOrdered client')) e (
        tr50_subscribe-IsOrdered net malloc client topic_filter qos callback custom thread w
          (lives-IsOrdered client life))
  lives-IsOrdered _
        (unsubscribed client client' topic_filter callback custom thread w w' ret e life) =
      subst (Holds (λ (ret, client', w'). IsOrdered client')) e (
        tr50_unsubscribe-IsOrdered net malloc client topic_filter callback custom thread w
          (lives-IsOrdered client life))
  lives-IsOrdered _
        (published client client' topic payload retain qos callback custom thread w w' ret e life) =
      subst (Holds (λ (ret, client', w'). IsOrdered client')) e (
        tr50_publish_base-IsOrdered net malloc client topic payload retain qos callback custom
          thread w (lives-IsOrdered client life))
  lives-IsOrdered _ (moved client mqtt mqtt' e life) =
      let order = lives-IsOrdered client life in
      record {
        requests = order.requests;
        linked = order.linked;
        numbered = order.numbered;
        connects = λ h. refl;
      }

  -- Whatever the platform, the server and the application do, where no compression of a raw call fails
  -- and the messages of calls are fresh, each client that a sequence of calls, requests, received
  -- messages and sweeps leads to has a well linked list of requests, a counter of at most 65536, a
  -- connection if it is started, and so a status.
  pub Lives-IsOrdered :
      (client : Client)
      → Lives client
      → IsOrdered client × ((status : ℕ) × (current_status client ≡ ok status))
  Lives-IsOrdered client life =
      let order = lives-IsOrdered client life in (order, status-IsOrdered client order)
