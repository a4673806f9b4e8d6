-- ===== src/Tr50/Api/Life.antt =====
-- The life of a client: the calls of the application, the received messages and the sweeps, in any
-- order.
use libtr.Tr50.Stats.{set_compress_ratio}
use libtr.Tr50.Client.Replies.{forget-IsList}
use libtr.Tr50.Client.Handlers.{watch, callback_of, reply_to}
use libtr.Tr50.Pending.Delete.{deleted-IsList}
use libtr.Tr50.Pending.Sweep.{waiting, sweep-over, is_over, over}
use libtr.Mqtt.Async.{publish}
use libtr.Base.{
  ℕ, suc, ◌≤◌, ◌≡◌, refl, ap, ◌∙◌, List, [], ◌∷◌, ◌++◌, Option, none, some, true, false, ◌&&◌, leb,
  length, Bool-cases, Option-cases, inl, inr, arith, ◌≢◌,
}
use libtr.Base.Int.{ℤ, is_zero}
use libtr.Error.{
  err_tr50_req_timeout, Res, ok, err, fault, stuck, Holds, Holds-bind, Holds-then, Res-cases, ◌>>=◌,
}
use libtr.Memory.{Malloc}
use libtr.Mqtt.Net.{Net}
use libtr.Tr50.Client.{Client, Handle, no_client, running, dangling, not_ready}
use libtr.Tr50.Client.Order.{
  IsOrdered, is_running, same-IsOrdered, pending-IsOrdered, watch-IsOrdered,
  find_and_remove-returns,
}
use libtr.Tr50.Pending.{Message, obj, raw, write, add, forget, deleted}
use libtr.Tr50.Pending.Segment.{NotIn, write-here}
use libtr.Tr50.Pending.Refine.{IsList, add-IsList}
use libtr.Tr50.Api.{Topic, api, apiz, msg_id_next, build_payload, min_compression_len}
use libtr.Tr50.Api.Call.{
  asks, new_message, noted, topic_with_seq, publish_on, publish_waiting, sweep_at, time_out,
  call_async, call_sent, raw_async, raw_sent,
}
use libtr.Tr50.Api.Ownership.{write-IsList, modify_eq, noted-pending}

msg_id_next-le : (seq_id : ℕ) → seq_id ≤ 65536 → msg_id_next seq_id ≤ 65536
unfolding msg_id_next
msg_id_next-le seq_id h = ground arith

reply_to-fields :
    (client : Client) (callback : Option ℕ) (status : ℤ) (reply : Option (List ℕ)) (custom : ℕ)
    → ((reply_to client callback status reply custom).seq_id ≡ client.seq_id)
      × ((reply_to client callback status reply custom).state ≡ client.state)
      × ((reply_to client callback status reply custom).mqtt ≡ client.mqtt)
reply_to-fields client none status reply custom = (refl, refl, refl)
reply_to-fields client (some callback) status reply custom = (refl, refl, refl)

time_out-fields :
    (client : Client) (store : ℕ → Option Message) (gone : List ℕ)
    → ((time_out client store gone).seq_id ≡ client.seq_id)
      × ((time_out client store gone).state ≡ client.state)
      × ((time_out client store gone).mqtt ≡ client.mqtt)
unfolding time_out
time_out-fields client store [] = (refl, refl, refl)
time_out-fields client store (a ∷ gone) = elim (Option-cases (store a)) [
  | inl lost ↦ rw (lost, time_out) (time_out-fields client store gone)
  | inr (m, got) ↦
      let called = reply_to client (callback_of m) err_tr50_req_timeout none m.callback_custom in
      let (seq_id, state, mqtt) = time_out-fields called store gone in
      let (seq_id', state', mqtt') =
        reply_to-fields client (callback_of m) err_tr50_req_timeout none m.callback_custom in
      rw (got, time_out) (seq_id ∙ seq_id', state ∙ state', mqtt ∙ mqtt')
]

pub sweep_at-IsOrdered :
    (meanwhile : Option ℕ) (client : Client)
    → IsOrdered client
    → Holds IsOrdered (sweep_at meanwhile client)
unfolding sweep_at
sweep_at-IsOrdered none client order = order
sweep_at-IsOrdered (some now) client order =
    let gone = over (is_over now client.pending.store) order.requests in
    let (pending, run, list) =
      sweep-over (suc client.pending.count) now client.pending order.requests order.linked
        (omega (arith, order.linked.counted)) in
    let (seq_id, state, mqtt) = time_out-fields client pending.store gone in
    let left = deleted pending gone in
    let told = record (time_out client pending.store gone) { pending = left } in
    rw (run, sweep_at)
      (same-IsOrdered (record client { pending = left }) told
        (pending-IsOrdered client left (waiting (is_over now client.pending.store) order.requests)
          order (deleted-IsList (is_over now client.pending.store) pending order.requests list))
        refl seq_id state mqtt)

noted-IsOrdered :
    (client : Client) (to_string : Res (List ℕ)) (topic : Topic) (payload : List ℕ)
    → IsOrdered client
    → IsOrdered (noted client to_string topic payload)
unfolding noted
noted-IsOrdered client (ok text) api payload order = watch-IsOrdered client text false order
noted-IsOrdered client (ok text) apiz payload order =
    same-IsOrdered (watch client text false) _ (watch-IsOrdered client text false order) refl refl
      refl refl
noted-IsOrdered client (err e) topic payload order = order
noted-IsOrdered client fault topic payload order = order
noted-IsOrdered client stuck topic payload order = order

module _ {W : Type 0} (net : Net W) (malloc : Malloc) where
  publish_on-running :
      (handle : Handle) (topic payload : List ℕ) (thread : ℕ) (w : W)
      → Holds
          (λ (ret, handle', w'). is_running handle ≡ true → is_running handle' ≡ true)
          (publish_on net malloc handle topic payload thread w)
  unfolding publish_on
  publish_on-running no_client topic payload thread w = λ h. h
  publish_on-running dangling topic payload thread w = tt
  publish_on-running (running mqtt) topic payload thread w =
      Holds-bind (λ (ret, handle', w'). true ≡ true → is_running handle' ≡ true)
        (publish net malloc mqtt topic payload false thread w) _ (λ (ret, mqtt', w') e h. refl)

  -- What a publication leaves: a client in order, without the message that was found.
  abbrev Leaves : ℤ × Client × Option ℕ × W → Type 0
  Leaves (ret, client, found, w) =
      IsOrdered client
      × ((a : ℕ) → found ≡ some a → (xs : List ℕ) × IsList client.pending xs × NotIn a xs)

  publish_waiting-IsOrdered :
      (client : Client) (seq_id : ℕ) (topic payload : List ℕ) (meanwhile : Option ℕ) (thread : ℕ)
      (w : W)
      → IsOrdered client
      → Holds Leaves (publish_waiting net malloc client seq_id topic payload meanwhile thread w)
  unfolding publish_waiting
  publish_waiting-IsOrdered client seq_id topic payload meanwhile thread w order =
      Holds-then (λ (ret, handle', w'). is_running client.mqtt ≡ true → is_running handle' ≡ true) _
        (publish_on net malloc client.mqtt topic payload thread w) _
        (publish_on-running client.mqtt topic payload thread w)
        λ (ret, mqtt, w') on.
          let tried : Client = record client { mqtt = mqtt } in
          let order1 : IsOrdered tried = record {
            requests = order.requests;
            linked = order.linked;
            numbered = order.numbered;
            connects = λ h. on (order.connects h);
          } in
          Holds-then IsOrdered _ (sweep_at meanwhile tried) _
            (sweep_at-IsOrdered meanwhile tried order1)
            (λ swept order2. elim (Bool-cases (is_zero ret)) [
              | inl good ↦ rw good (order2, λ a e. cc)
              | inr bad ↦
                  let (found, pending, ys, run, list, out) =
                    find_and_remove-returns swept.pending order2.requests seq_id order2.linked in
                  rw bad (
                    rw run
                      (pending-IsOrdered swept pending ys order2 list, λ a e. (ys, list, out a e)))
            ])

  -- A message that no one waits for: it is not in the list, and its pointers are NULL.
  abbrev pub IsFresh : Client → ℕ → Message → Type 0
  IsFresh client message m =
      (client.pending.store message ≡ some m)
      × (m.pending_previous ≡ none)
      × (m.pending_next ≡ none)
      × ((xs : List ℕ) → IsList client.pending xs → NotIn message xs)

  call_sent-IsOrdered :
      (len : ℕ) (ret : ℤ) (sent : Client) (found : Option ℕ) (w : W)
      → IsOrdered sent
      → IsOrdered (call_sent net malloc len (ret, sent, found, w)).1
  unfolding call_sent
  call_sent-IsOrdered len ret sent found w order = elim (Bool-cases (is_zero ret)) [
    | inl good ↦ rw good (same-IsOrdered sent _ order refl refl refl refl)
    | inr bad ↦ elim (Option-cases found) [
      | inl gone ↦ rw bad (rw gone order)
      | inr (a, back) ↦ rw bad (rw back order)
    ]
  ]

  pub call_async-IsOrdered :
      (client : Client) (message : ℕ) (m : Message) (callback : Option ℕ) (custom timeout : ℕ)
      (to_string : Res (List ℕ)) (deflate : List ℕ → Res (List ℕ)) (now : ℕ) (meanwhile : Option ℕ)
      (thread : ℕ) (w : W)
      → IsOrdered client
      → IsFresh client message m
      → Holds
          (λ (ret, client', w'). IsOrdered client')
          (call_async net malloc client message callback custom timeout to_string deflate now
            meanwhile thread w)
  unfolding call_async
  call_async-IsOrdered client message m callback custom timeout to_string deflate now meanwhile
        thread w order (got, no_prev, no_next, apart) =
      elim (Bool-cases (is_zero (not_ready client))) [
        | inr refused ↦ rw (refused, call_async) order
        | inl ready ↦
            let seq_id = msg_id_next client.seq_id in
            let xs = order.requests in
            let m' = asks seq_id obj callback none custom timeout m in
            let asked = record client {
              seq_id = seq_id;
              pending = record client.pending { store = write client.pending.store message m' };
            } in
            let stored =
              modify_eq client.pending.store message m got
                (asks seq_id obj callback none custom timeout) in
            let list =
              write-IsList client.pending xs message m' order.linked (apart xs order.linked) in
            let order1 : IsOrdered asked = record {
              requests = xs;
              linked = list;
              numbered = msg_id_next-le client.seq_id order.numbered;
              connects = order.connects;
            } in
            let (p1, added, list1) =
              add-IsList asked.pending xs message m' now list (apart xs order.linked)
                (write-here client.pending.store message m') no_prev no_next in
            rw (ready, call_async)
              (rw stored (elim (Res-cases (build_payload to_string deflate client.compress)) [
                | inr (inl e) ↦ rw e tt
                | inr (inr (inl e)) ↦ rw e tt
                | inr (inr (inr (ret, e))) ↦ rw e order1
                | inl ((ret, topic, payload), e) ↦
                    let built = noted asked to_string topic payload in
                    let order2 = noted-IsOrdered asked to_string topic payload order1 in
                    let added' =
                      ap (λ p. add p message now) (noted-pending asked to_string topic payload)
                      ∙ added in
                    elim (Bool-cases (is_zero ret)) [
                      | inr failed ↦ rw e (rw failed order2)
                      | inl good ↦ rw e (
                          rw good (
                            rw added' (
                              Holds-then Leaves _
                                (publish_waiting net malloc (record built { pending = p1 }) seq_id
                                  (topic_with_seq topic seq_id) payload meanwhile thread w)
                                _
                                (publish_waiting-IsOrdered (record built { pending = p1 }) seq_id
                                  (topic_with_seq topic seq_id) payload meanwhile thread w
                                  (pending-IsOrdered built p1 (xs ++ (message ∷ [])) order2 list1))
                                (λ (ret, sent, found, w') h.
                                  call_sent-IsOrdered (length payload) ret sent found w' h.0))))
                    ]
              ]))
      ]

  raw_sent-IsOrdered :
      (len : ℕ) (ret : ℤ) (sent : Client) (found : Option ℕ) (w : W)
      → IsOrdered sent
      → ((a : ℕ) → found ≡ some a → (xs : List ℕ) × IsList sent.pending xs × NotIn a xs)
      → IsOrdered (raw_sent net malloc len (ret, sent, found, w)).1
  unfolding raw_sent
  raw_sent-IsOrdered len ret sent found w order out = elim (Bool-cases (is_zero ret)) [
    | inl good ↦ rw good (same-IsOrdered sent _ order refl refl refl refl)
    | inr bad ↦ elim (Option-cases found) [
      | inl gone ↦ rw bad (rw gone (same-IsOrdered sent _ order refl refl refl refl))
      | inr (a, back) ↦
          let (xs, list, apart) = out a back in
          rw bad (
            rw back (
              pending-IsOrdered sent (forget sent.pending a) xs order
                (forget-IsList sent.pending xs a list apart)))
    ]
  ]

  pub raw_async-IsOrdered :
      (client : Client) (message : ℕ) (request : List ℕ) (callback : Option ℕ) (custom timeout : ℕ)
      (deflate : List ℕ → Res (List ℕ)) (now : ℕ) (meanwhile : Option ℕ) (thread : ℕ) (w : W)
      → IsOrdered client
      → ((xs : List ℕ) → IsList client.pending xs → NotIn message xs)
      → ((ret : ℤ) → deflate request ≢ err ret)
      → Holds
          (λ (ret, client', w'). IsOrdered client')
          (raw_async net malloc client
            (some message)
            request
            callback
            custom
            timeout
            deflate
            now
            meanwhile
            thread
            w)
  unfolding raw_async
  raw_async-IsOrdered client message request callback custom timeout deflate now meanwhile thread w
        order apart deflates =
      elim (Bool-cases (is_zero (not_ready client))) [
        | inr refused ↦ rw (refused, raw_async) order
        | inl ready ↦
            let seq_id = msg_id_next client.seq_id in
            let xs = order.requests in
            let out = apart xs order.linked in
            let made = asks seq_id raw none callback custom timeout new_message in
            let start = record client.pending { store = write client.pending.store message made } in
            let (p1, added, list1) =
              add-IsList start xs message made now
                (write-IsList client.pending xs message made order.linked out) out
                (write-here client.pending.store message made) refl refl in
            let asked = record client { seq_id = seq_id; pending = p1 } in
            let order1 : IsOrdered asked = record {
              requests = xs ++ (message ∷ []);
              linked = list1;
              numbered = msg_id_next-le client.seq_id order.numbered;
              connects = order.connects;
            } in
            let waits = watch asked request false in
            let order2 = watch-IsOrdered asked request false order1 in
            let sends = λ (c : Client) (h : IsOrdered c) (topic payload : List ℕ).
              Holds-then Leaves (λ (ret, client', w'). IsOrdered client')
                (publish_waiting net malloc c seq_id topic payload meanwhile thread w)
                (λ result. ok (raw_sent net malloc (length request) result))
                (publish_waiting-IsOrdered c seq_id topic payload meanwhile thread w h)
                (λ (ret, sent, found, w') left.
                  raw_sent-IsOrdered (length request) ret sent found w' left.0 left.1) in
            elim (Bool-cases (client.compress && leb min_compression_len (length request))) [
              | inr plain ↦
                  rw (ready, raw_async)
                    (rw (added, ◌>>=◌)
                      (rw plain (sends waits order2 (topic_with_seq api seq_id) request)))
              | inl long ↦ elim (Res-cases (deflate request)) [
                | inr (inl e) ↦ rw (ready, raw_async) (rw (added, ◌>>=◌) (rw long (rw e tt)))
                | inr (inr (inl e)) ↦ rw (ready, raw_async) (rw (added, ◌>>=◌) (rw long (rw e tt)))
                | inr (inr (inr (ret, e))) ↦ absurd (deflates ret e)
                | inl (small, e) ↦
                    let noted_down = record waits {
                      stats = set_compress_ratio waits.stats (length request) (length small);
                    } in
                    rw (ready, raw_async)
                      (rw (added, ◌>>=◌)
                        (rw long (
                          rw e (
                            sends noted_down
                              (same-IsOrdered waits noted_down order2 refl refl refl refl)
                              (topic_with_seq apiz seq_id) small))))
              ]
            ]
      ]
