-- ===== src/Mqtt/Async/Life.antt =====
-- The life of a client: what `mqtt_async_connect` opens and the other functions lead to.
use libtr.Base.{
  ℕ, ◌≡◌, refl, ◌∙◌, List, Option, none, some, Bool, true, false, ◌&&◌, arith, is_some, Bool-cases,
  Option-cases, inl, inr,
}
use libtr.Base.Int.{ℤ, pos, is_zero}
use libtr.Error.{
  err_tr50_malloc, err_tr50_parms, Res, ok, fault, stuck, Res-cases, Holds, Holds-bind, Holds-then,
}
use libtr.Memory.{Malloc}
use libtr.Mqtt.Net.{Net, ConnectParams}
use libtr.Mqtt.Connect.{mqtt_connect}
use libtr.Mqtt.Connect.Outcome.{Linked, mqtt_connect-Linked}
use libtr.Mqtt.Qos.{Qos, create}
use libtr.Mqtt.Qos.Count.{IsValid}
use libtr.Mqtt.Qos.Reach.{made, Reachable-IsValid}
use libtr.Mqtt.Async.{
  created, connecting, connected, broken, deleting, AsyncClient, state_change, new_async_client,
  publish_base, subscribe, unsubscribe, close_client, start_thread, open_client, async_connect,
  stats_clear,
}
use libtr.Mqtt.Async.Handler.{round}
use libtr.Mqtt.Async.Sound.{IsSound, state_change-IsSound, same-IsSound}
use libtr.Mqtt.Async.Requests.{publish_base-Keeps, subscribe-Keeps, unsubscribe-Keeps}
use libtr.Mqtt.Async.Rounds.{round-Keeps}

abbrev SoundIfGiven : Option AsyncClient → Type 0
SoundIfGiven none = Unit {0}
SoundIfGiven (some client) = IsSound client

abbrev pub Opens : {W : Type 0} → Res (ℤ × Option AsyncClient × ℤ × W) → Type 0
Opens = Holds (λ (ret, client, error, w). SoundIfGiven client)

stats_clear-IsSound : (client : AsyncClient) → IsSound client → IsSound (stats_clear client)
unfolding stats_clear
stats_clear-IsSound client sound =
    same-IsSound client (stats_clear client) sound sound.valid refl
      (λ on. elim (Option-cases client.mqtt) [
        | inl none_left ↦
            let e : is_some client.mqtt ≡ false = rw none_left refl in let f = sound.linked on in cc
        | inr (mqtt, link) ↦ rw link refl
      ])
      refl refl

-- The first change is told before there is a state to start from.
opening-IsSound :
    (params : ConnectParams) (has : Bool) (qos : Qos)
    → IsValid qos
    → IsSound (state_change (new_async_client params has qos) created connecting (pos 0))
unfolding state_change
opening-IsSound params has qos valid = record {
  valid = valid;
  linked = λ h. cc;
  told = λ callback. rw callback refl;
}

created-IsValid :
    (b1 b2 : Bool) (size timeout : ℕ) (qos : Qos) → create b1 b2 size timeout ≡ ok qos → IsValid qos
unfolding create
created-IsValid true true size timeout qos e = (Reachable-IsValid size timeout qos (made qos e)).0
created-IsValid false _ size timeout qos e = cc
created-IsValid true false size timeout qos e = cc

module _ {W : Type 0} (net : Net W) (malloc : Malloc) where
  start_thread-Opens :
      (thread_ret : ℤ) (client : AsyncClient) (error : ℤ) (w : W)
      → IsSound client
      → Opens (start_thread net malloc thread_ret client error w)
  unfolding start_thread
  start_thread-Opens thread_ret client error w sound = elim (Bool-cases (is_zero thread_ret)) [
    | inl good ↦ rw (good, start_thread) sound
    | inr bad ↦
        rw (bad, start_thread)
          (Holds-bind (λ (ret, client, error, w). SoundIfGiven client)
            (close_client net malloc (state_change client client.state deleting (pos 0)) w) _
            (λ (gone, w') got. tt))
  ]

  open_client-Opens :
      (fuel : ℕ) (thread_ret : ℤ) (params : ConnectParams) (has : Bool) (qos : Qos) (w : W)
      → IsValid qos
      → Opens (open_client net malloc fuel thread_ret (new_async_client params has qos) w)
  unfolding open_client state_change
  open_client-Opens fuel thread_ret params has qos w valid =
      let client = state_change (new_async_client params has qos) created connecting (pos 0) in
      let sound = opening-IsSound params has qos valid in
      Holds-then Linked (λ (ret, client, error, w). SoundIfGiven client)
        (mqtt_connect net fuel malloc params w) _ (mqtt_connect-Linked net fuel malloc params w)
        (λ (ret, mqtt, w') linked. elim (Bool-cases (is_zero ret)) [
          | inl good ↦
              let ready = record client { mqtt = mqtt } in
              let ready_sound =
                same-IsSound client ready sound sound.valid refl (λ on. linked ∙ good) refl refl in
              rw good (
                start_thread-Opens thread_ret (state_change ready connecting connected (pos 0))
                  (pos 0) w'
                  (state_change-IsSound ready connecting connected (pos 0) ready_sound refl refl
                    (λ on. linked ∙ good)))
          | inr bad ↦ rw bad (
              start_thread-Opens thread_ret (state_change client connecting broken ret) ret w'
                (state_change-IsSound client connecting broken ret sound refl refl (λ on. cc)))
        ])

  -- `mqtt_async_connect` opens a sound client on each of its returns that open one.
  async_connect-Opens :
      (fuel : ℕ) (params : ConnectParams) (has_publish has_reconnect has_state has_block : Bool)
      (mutex_ret : ℤ) (has_qos has_records : Bool) (thread_ret : ℤ) (w : W)
      → Opens (
          async_connect net malloc fuel params has_publish has_reconnect has_state has_block
            mutex_ret has_qos has_records thread_ret w)
  unfolding async_connect
  async_connect-Opens fuel params has_publish has_reconnect has_state has_block mutex_ret has_qos
        has_records thread_ret w =
      let call =
        async_connect net malloc fuel params has_publish has_reconnect has_state has_block mutex_ret
          has_qos has_records thread_ret w in
      elim (Bool-cases (has_publish && has_reconnect)) [
        | inr missing ↦
            let eq : call ≡ ok (err_tr50_parms, none, pos 0, w) = ground (arith, missing) in
            rw eq tt
        | inl given ↦ elim (Bool-cases has_block) [
          | inr full ↦
              let eq : call ≡ ok (err_tr50_malloc, none, pos 0, w) = ground (arith, given, full) in
              rw eq tt
          | inl block ↦ elim (Bool-cases (is_zero mutex_ret)) [
            | inr bad ↦
                let eq : call ≡ ok (mutex_ret, none, pos 0, w) =
                  ground (arith, given, block, bad) in
                rw eq tt
            | inl good ↦ elim (Res-cases (create has_qos has_records 32 30)) [
              | inl (qos, table) ↦
                  let eq : call
                      ≡ open_client net malloc fuel thread_ret
                          (new_async_client params has_state qos) w =
                    ground (arith, given, block, good, table) in
                  rw eq (
                    open_client-Opens fuel thread_ret params has_state qos w
                      (created-IsValid has_qos has_records 32 30 qos table))
              | inr (inl e) ↦
                  let eq : call ≡ fault = ground (arith, given, block, good, e) in rw eq tt
              | inr (inr (inl e)) ↦
                  let eq : call ≡ stuck = ground (arith, given, block, good, e) in rw eq tt
              | inr (inr (inr (code, e))) ↦
                  let eq : call ≡ ok (code, none, pos 0, w) =
                    ground (arith, given, block, good, e) in
                  rw eq tt
            ]
          ]
        ]
      ]

  -- A client that some sequence of calls leads to, whatever the platform answers. The requests and
  -- the rounds of the thread come in any order.
  pub data Lives : AsyncClient → Type 0 where
    opened :
        (fuel : ℕ) (params : ConnectParams) (has_publish has_reconnect has_state has_block : Bool)
        (mutex_ret : ℤ) (has_qos has_records : Bool) (thread_ret ret error : ℤ) (w w' : W)
        (client : AsyncClient)
        → async_connect net malloc fuel params has_publish has_reconnect has_state has_block
            mutex_ret has_qos has_records thread_ret w
          ≡ ok (ret, some client, error, w')
        → Lives client
    published_to :
        (client client' : AsyncClient) (topic payload : List ℕ) (retain : Bool) (qos : ℕ)
        (callback : Option ℕ) (custom thread : ℕ) (ret : ℤ) (w w' : W)
        → Lives client
        → publish_base net malloc client topic payload retain qos callback custom thread w
          ≡ ok (ret, client', w')
        → Lives client'
    subscribed :
        (client client' : AsyncClient) (topic : List ℕ) (qos : ℕ) (callback : Option ℕ)
        (custom thread : ℕ) (ret : ℤ) (w w' : W)
        → Lives client
        → subscribe net malloc client topic qos callback custom thread w ≡ ok (ret, client', w')
        → Lives client'
    unsubscribed :
        (client client' : AsyncClient) (topic : List ℕ) (callback : Option ℕ) (custom thread : ℕ)
        (ret : ℤ) (w w' : W)
        → Lives client
        → unsubscribe net malloc client topic callback custom thread w ≡ ok (ret, client', w')
        → Lives client'
    ran :
        (fuel : ℕ) (has_buffer : Bool) (ret ret' : ℤ) (client client' : AsyncClient) (w w' : W)
        → Lives client
        → round net malloc fuel has_buffer ret client w ≡ ok (ret', client', w')
        → Lives client'
    stats_cleared : (client : AsyncClient) → Lives client → Lives (stats_clear client)

  -- Whatever the platform and the broker answer, a client that a sequence of calls leads to is
  -- sound: its table of unacknowledged messages is consistent, a client that is connected has a
  -- connection, and the changes of the state of which the application was told, where it gave a
  -- callback, start at CREATED, follow one another, are allowed, and end in the client's state.
  pub Lives-IsSound : (client : AsyncClient) → Lives client → IsSound client
  Lives-IsSound _ (opened fuel params b1 b2 b3 b4 m b5 b6 t ret error w w' client e) =
      (rw e at (async_connect-Opens fuel params b1 b2 b3 b4 m b5 b6 t w))
  Lives-IsSound _
        (published_to client client' topic payload retain qos callback custom thread ret w w' lives
          e) =
      (rw e at (
        publish_base-Keeps net malloc client topic payload retain qos callback custom thread w
          (Lives-IsSound client lives)))
  Lives-IsSound _ (subscribed client client' topic qos callback custom thread ret w w' lives e) =
      (rw e at (
        subscribe-Keeps net malloc client topic qos callback custom thread w
          (Lives-IsSound client lives)))
  Lives-IsSound _ (unsubscribed client client' topic callback custom thread ret w w' lives e) =
      (rw e at (
        unsubscribe-Keeps net malloc client topic callback custom thread w
          (Lives-IsSound client lives)))
  Lives-IsSound _ (ran fuel has_buffer ret ret' client client' w w' lives e) =
      (rw e at (round-Keeps net malloc fuel has_buffer ret client w (Lives-IsSound client lives)))
  Lives-IsSound _ (stats_cleared client lives) =
      stats_clear-IsSound client (Lives-IsSound client lives)
