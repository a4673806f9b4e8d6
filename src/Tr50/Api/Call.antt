-- ===== src/Tr50/Api/Call.antt =====
-- The calls of tr50.api.async.c: a message gets its identifier, waits in the list of requests, and is
-- published. Each call runs as one step under the client's mutex, but the thread that looks for
-- requests whose time is over may run while a message is published: `meanwhile` is the time of such
-- a sweep, if there is one.
use libtr.Base.{
  ℕ, suc, List, [], ◌∷◌, ◌++◌, Option, none, some, true, false, ◌&&◌, leb, length, if◌then◌else◌,
}
use libtr.Base.Int.{ℤ, pos, is_zero}
use libtr.Error.{
  Res, ok, err, fault, stuck, ◌>>=◌, err_tr50_async_client_not_connected, err_tr50_req_timeout,
}
use libtr.Memory.{Malloc}
use libtr.Mqtt.Net.{Net}
use libtr.Mqtt.Async.{publish}
use libtr.Tr50.Api.{Topic, api, apiz, msg_id_next, build_payload, min_compression_len}
use libtr.Tr50.Client.{Client, Handle, no_client, running, dangling, not_ready}
use libtr.Tr50.Client.Decimal.{print_decimal}
use libtr.Tr50.Client.Handlers.{callback_of, watch, reply_to}
use libtr.Tr50.Pending.{
  Message, MessageType, obj, raw, Store, write, modify, add, find_and_remove, sweep, forget,
  deleted,
}
use libtr.Tr50.Stats.{pub_sent_up, set_compress_ratio}

abbrev pub topic_bytes : Topic → List ℕ
topic_bytes api = 97 ∷ 112 ∷ 105 ∷ []
topic_bytes apiz = 97 ∷ 112 ∷ 105 ∷ 122 ∷ []

-- `snprintf(topic_with_seq, 63, "%s/%d", topic, seq_id)`, which is never cut.
unfoldable pub topic_with_seq : Topic → ℕ → List ℕ
topic_with_seq topic seq_id = topic_bytes topic ++ (47 ∷ print_decimal seq_id)

-- The callbacks of the requests whose time is over, in order.
unfoldable pub time_out : Client → Store → List ℕ → Client
time_out client store [] = client
time_out client store (a ∷ gone) = elim (store a) [
  | none ↦ time_out client store gone
  | some m ↦
      time_out (reply_to client (callback_of m) err_tr50_req_timeout none m.callback_custom) store
        gone
]

-- A sweep of `_tr50_pending_expiration_handler` at a time, if there is one. A message whose time is
-- over is taken out, its callback is called, and it is counted and deleted.
unfoldable pub sweep_at : Option ℕ → Client → Res Client
unfolding sweep time_out
sweep_at none client = ok client
sweep_at (some now) client = do
  (pending, gone) ← sweep (suc client.pending.count) now client.pending client.pending.list_head
  ok (record (time_out client pending.store gone) { pending = deleted pending gone })

-- The identifier that a message gets, and what the call asks for.
abbrev pub asks : ℕ → MessageType → Option ℕ → Option ℕ → ℕ → ℕ → Message → Message
asks seq_id type reply_callback raw_callback custom timeout m = record m {
  seq_id = seq_id;
  message_type = type;
  reply_callback = reply_callback;
  raw_callback = raw_callback;
  callback_custom = custom;
  callback_timeout = timeout;
}

-- `tr50_message_create`.
abbrev pub new_message : Message
new_message = record {
  message_type = obj;
  seq_id = 0;
  pending_sent_timestamp = 0;
  pending_expiration_timestamp = 0;
  pending_previous = none;
  pending_next = none;
  callback_timeout = 0;
  callback_custom = 0;
  raw_callback = none;
  reply_callback = none;
}

-- What `_tr50_build_payload` notes down: the watcher sees the text, and the sizes are kept where it
-- was compressed.
unfoldable pub noted : Client → Res (List ℕ) → Topic → List ℕ → Client
unfolding set_compress_ratio
noted client (ok text) topic payload =
    let seen = watch client text false in
    elim topic [
      | api ↦ seen
      | apiz ↦ record seen { stats = set_compress_ratio seen.stats (length text) (length payload) }
    ]
noted client _ topic payload = client

module _ {W : Type 0} (net : Net W) (malloc : Malloc) where
  -- `mqtt_async_publish(client->mqtt, ..)`, which refuses NULL.
  unfoldable pub publish_on : Handle → List ℕ → List ℕ → ℕ → W → Res (ℤ × Handle × W)
  publish_on no_client topic payload thread w =
      ok (err_tr50_async_client_not_connected, no_client, w)
  publish_on dangling topic payload thread w = fault
  publish_on (running mqtt) topic payload thread w = do
    (ret, mqtt, w) ← publish net malloc mqtt topic payload false thread w
    ok (ret, running mqtt, w)

  -- The publication of a message that waits, and the sweep meanwhile, whatever the publication returns.
  -- Where it fails, the message is taken out of the list again, whose address is the third part; if
  -- it is not there any more, its time was over, and the call has succeeded.
  unfoldable pub publish_waiting :
      Client → ℕ → List ℕ → List ℕ → Option ℕ → ℕ → W → Res (ℤ × Client × Option ℕ × W)
  unfolding publish_on sweep_at find_and_remove
  publish_waiting client seq_id topic payload meanwhile thread w = do
    (ret, mqtt, w) ← publish_on client.mqtt topic payload thread w
    swept ← sweep_at meanwhile (record client { mqtt = mqtt })
    elim (is_zero ret) [
      | true ↦ ok (ret, swept, none, w)
      | false ↦ do
        (found, pending) ← find_and_remove (suc swept.pending.count) swept.pending seq_id
        ok (ret, record swept { pending = pending }, found, w)
    ]

  -- The ends of `tr50_api_call_async`.
  unfoldable pub call_sent : ℕ → ℤ × Client × Option ℕ × W → ℤ × Client × W
  unfolding pub_sent_up
  call_sent payload_len (ret, sent, found, w) =
      if is_zero ret
      then (pos 0, record sent { stats = pub_sent_up sent.stats payload_len }, w)
      else elim found [ some returned ↦ (ret, sent, w) | none ↦ (pos 0, sent, w) ]

  -- `tr50_api_call_async`. The message stands in the store at `message`; where the call does not
  -- return 0, it still belongs to the caller.
  unfoldable pub call_async :
      Client
      → ℕ
      → Option ℕ
      → ℕ
      → ℕ
      → Res (List ℕ)
      → (List ℕ → Res (List ℕ))
      → ℕ
      → Option ℕ
      → ℕ
      → W
      → Res (ℤ × Client × W)
  unfolding not_ready msg_id_next modify build_payload noted add publish_waiting call_sent
      topic_with_seq
  call_async client message callback custom timeout to_string deflate now meanwhile thread w =
      elim (is_zero (not_ready client)) [
        | false ↦ ok (not_ready client, client, w)
        | true ↦ do
          let seq_id = msg_id_next client.seq_id
          store ← modify client.pending.store message (asks seq_id obj callback none custom timeout)
          let asked = record client {
            seq_id = seq_id;
            pending = record client.pending { store = store };
          }
          elim (build_payload to_string deflate client.compress) [
            | fault ↦ fault
            | stuck ↦ stuck
            | err ret ↦ ok (ret, asked, w)
            | ok (ret, topic, payload) ↦
                let built = noted asked to_string topic payload in
                elim (is_zero ret) [
                  | false ↦ ok (ret, built, w)
                  | true ↦ do
                    pending ← add built.pending message now
                    let waits = record built { pending = pending }
                    result ←
                        publish_waiting waits seq_id (topic_with_seq topic seq_id) payload meanwhile
                          thread w
                    ok (call_sent (length payload) result)
                ]
          ]
      ]

  -- `tr50_api_call`.
  unfoldable pub call :
      Client
      → ℕ
      → Res (List ℕ)
      → (List ℕ → Res (List ℕ))
      → ℕ
      → Option ℕ
      → ℕ
      → W
      → Res (ℤ × Client × W)
  unfolding call_async
  call client message to_string deflate now meanwhile thread w =
      call_async client message none 0 30000 to_string deflate now meanwhile thread w

  -- The ends of `tr50_api_raw_async`: the message that waits, or that was found, is deleted where the
  -- code is not 0.
  unfoldable pub raw_sent : ℕ → ℤ × Client × Option ℕ × W → ℤ × Client × W
  unfolding pub_sent_up
  raw_sent request_len (ret, sent, found, w) =
      let counted = record sent { stats = pub_sent_up sent.stats request_len } in
      if is_zero ret then (pos 0, counted, w) else elim found [
        | none ↦ (pos 0, counted, w)
        | some message ↦ (ret, record sent { pending = forget sent.pending message }, w)
      ]

  -- `tr50_api_raw_async`, which makes its message at the address `fresh`; the pointer is NULL where
  -- `malloc` failed, and written through. A failed compression deletes the message that was added
  -- to the list.
  unfoldable pub raw_async :
      Client
      → Option ℕ
      → List ℕ
      → Option ℕ
      → ℕ
      → ℕ
      → (List ℕ → Res (List ℕ))
      → ℕ
      → Option ℕ
      → ℕ
      → W
      → Res (ℤ × Client × W)
  unfolding not_ready msg_id_next add set_compress_ratio publish_waiting raw_sent topic_with_seq
  raw_async client fresh request callback custom timeout deflate now meanwhile thread w =
      elim (is_zero (not_ready client)) [
        | false ↦ ok (not_ready client, client, w)
        | true ↦ elim fresh [
          | none ↦ fault
          | some message ↦ do
            let seq_id = msg_id_next client.seq_id
            let made = asks seq_id raw none callback custom timeout new_message
            pending ←
                add (record client.pending { store = write client.pending.store message made })
                  message now
            let waits = watch (record client { seq_id = seq_id; pending = pending }) request false
            elim (client.compress && leb min_compression_len (length request)) [
              | false ↦ do
                result ←
                    publish_waiting waits seq_id (topic_with_seq api seq_id) request meanwhile
                      thread w
                ok (raw_sent (length request) result)
              | true ↦ elim (deflate request) [
                | fault ↦ fault
                | stuck ↦ stuck
                | err ret ↦ ok (ret, record waits { pending = forget waits.pending message }, w)
                | ok out ↦ do
                  let noted_down = record waits {
                    stats = set_compress_ratio waits.stats (length request) (length out);
                  }
                  result ←
                      publish_waiting noted_down seq_id (topic_with_seq apiz seq_id) out meanwhile
                        thread w
                  ok (raw_sent (length request) result)
              ]
            ]
        ]
      ]
