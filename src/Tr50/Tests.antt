-- ===== src/Tr50/Tests.antt =====
-- Calls and replies on a client with two requests that wait.
use libtr.Tr50.Api.Reach.{made, told, Lives-IsOrdered}
use libtr.Tr50.Client.Order.{IsOrdered}
use libtr.Tr50.Stats.{no_stats, set_compress_ratio}
use libtr.Tr50.Config.{held, release, set_host, no_config, set_client_id}
use libtr.Mqtt.Async.{connection_of, request, publish_base, broken, publish}
use libtr.Tr50.Client.Start.{create}
use libtr.Tr50.Api.{api, msg_id_next, build_payload}
use libtr.Base.{
  not, ◌&&◌, ℕ, ◌+◌, ◌≡◌, refl, List, [], ◌∷◌, ◌++◌, none, some, true, false, ◌||◌, replicate,
  arith, suc, if◌then◌else◌,
}
use libtr.Base.Int.{pos, neg, is_zero}
use libtr.Error.{err_tr50_async_client_not_connected, ok, err, fault}
use libtr.Memory.Sample.{heap}
use libtr.Mqtt.Sample.{line}
use libtr.Tr50.Client.{current_status, stopped, no_client, running, Client, not_ready}
use libtr.Tr50.Client.Decimal.{print_decimal}
use libtr.Tr50.Client.Handlers.{
  state_change_handler, topic_compress_reply, told_non_api, callback_of, handle_publish,
  publish_handler, topic_reply,
}
use libtr.Tr50.Client.Replies.{
  reply_events, watch_events, publish_handler-reply, handle_publish-replied, handle_publish-lost,
}
use libtr.Tr50.Pending.{find_and_remove}
use libtr.Tr50.Pending.Refine.{IsList}
use libtr.Tr50.Pending.Remove.{first_with}
use libtr.Tr50.Api.Call.{publish_on, call_async, raw_async}
use libtr.Tr50.Api.Outcome.{kept_at}
use libtr.Tr50.Api.Ownership.{is_late, call_async-outcome}
use libtr.Tr50.Api.Dangling.{raw_async-dangles}
use libtr.Tr50.Sample.{mqtt, client, client-IsList, first, second, third}

handle_publish-replied_example :
    (pre : List ℕ) × (post : List ℕ) × (client' : Client) × (1 ∷ 2 ∷ [] ≡ pre ++ (1 ∷ post))
    × (first_with client.pending.store 70 pre ≡ none)
    × (handle_publish (λ text. err (neg 18007)) client (0x7b ∷ []) (pos 70) ≡ ok client')
    × IsList client'.pending (pre ++ post)
    × (client'.pending.store 1 ≡ none)
    × (client'.events
        ≡ (client.events ++ reply_events (callback_of first) (0x7b ∷ []) 5)
          ++ watch_events true (0x7b ∷ []))
handle_publish-replied_example =
    handle_publish-replied (λ text. err (neg 18007)) client (1 ∷ 2 ∷ []) 70 1 first (0x7b ∷ [])
      client-IsList refl refl tt

handle_publish-lost_example :
    (pre : List ℕ) × (post : List ℕ) × (client' : Client) × (1 ∷ 2 ∷ [] ≡ pre ++ (2 ∷ post))
    × (handle_publish (λ text. err (neg 18007)) client (0x7b ∷ []) (pos 71) ≡ ok client')
    × IsList client'.pending (pre ++ post)
    × (client'.events ≡ client.events ++ watch_events true (0x7b ∷ []))
handle_publish-lost_example =
    handle_publish-lost (λ text. err (neg 18007)) client (1 ∷ 2 ∷ []) 71 2 second (0x7b ∷ [])
      (neg 18007) client-IsList refl refl refl refl

raw_async-dangles_example :
    (client' : Client) × (raw_async line heap client
        (some 4)
        (replicate 128 0x20)
        none
        0
        1000
        (λ text. err (neg 18019))
        5000
        none
        1
        []
      ≡ ok (neg 18019, client', []))
    × (find_and_remove (suc client'.pending.count) client'.pending 99 ≡ fault)
unfolding not_ready
raw_async-dangles_example =
    raw_async-dangles line heap client (1 ∷ 2 ∷ []) 4 (replicate 128 0x20) none 0 1000
      (λ text. err (neg 18019)) 5000 none 1 [] (neg 18019) 99 refl client-IsList (refl, (refl, tt))
      refl (omega arith) refl ((first, refl, refl), ((second, refl, refl), tt))

-- The same client while its connection is broken.
abbrev offline : Client
offline = record client { mqtt = running (record mqtt { state = broken }); compress = false }

call_async-outcome_example :
    (client' : Client) × (call_async line heap offline 3
        (some 9)
        4
        1000
        (ok (0x7b ∷ []))
        (λ text. ok [])
        5000
        (some 7000)
        1
        []
      ≡ ok (
        (if is_zero err_tr50_async_client_not_connected || is_late (some 7000) (5000 + 1000)
            then pos 0
            else err_tr50_async_client_not_connected),
        client',
        [],
      ))
    × IsList client'.pending (
        kept_at (some 7000) offline.pending.store (1 ∷ 2 ∷ [])
        ++ (if is_zero err_tr50_async_client_not_connected
              && not (is_late (some 7000) (5000 + 1000))
            then 3 ∷ []
            else []))
unfolding not_ready build_payload publish_on publish publish_base request connection_of msg_id_next
call_async-outcome_example =
    call_async-outcome line heap offline (1 ∷ 2 ∷ []) 3 third (some 9) 4 1000 (ok (0x7b ∷ []))
      (λ text. ok []) 5000 (some 7000) 1 [] [] api (0x7b ∷ []) err_tr50_async_client_not_connected
      offline.mqtt refl client-IsList (refl, (refl, tt)) refl refl refl
      ((first, refl, refl), ((second, refl, refl), tt)) refl refl

publish_handler-reply_example :
    (publish_handler
        (λ text. ok true)
        (λ text. ok (0x7b ∷ 0x7d ∷ []))
        client
        (topic_reply ++ print_decimal 71)
        (0x21 ∷ [])
        (pos 0)
      ≡ handle_publish
          (λ text. ok true)
          (told_non_api client (topic_reply ++ print_decimal 71) (0x21 ∷ []))
          (0x21 ∷ [])
          (pos 71))
    × (publish_handler
          (λ text. ok true)
          (λ text. ok (0x7b ∷ 0x7d ∷ []))
          client
          (topic_compress_reply ++ print_decimal 71)
          (0x21 ∷ [])
          (pos 0)
        ≡ handle_publish
            (λ text. ok true)
            (record (told_non_api client (topic_compress_reply ++ print_decimal 71) (0x21 ∷ [])) {
              stats = set_compress_ratio client.stats 2 1;
            })
            (0x7b ∷ 0x7d ∷ [])
            (pos 71))
publish_handler-reply_example =
    publish_handler-reply (λ text. ok true) (λ text. ok (0x7b ∷ 0x7d ∷ [])) client 71 (0x21 ∷ [])
      (0x7b ∷ 0x7d ∷ []) (pos 0) refl

abbrev fresh_client : Client
fresh_client = record {
  connect_params = none;
  mqtt = no_client;
  state = stopped;
  seq_id = 0;
  compress = false;
  is_stopping = false;
  should_reconnect_callback = false;
  non_api_callback = false;
  pending = record {
    store = λ a. none;
    list_head = none;
    list_tail = none;
    count = 0;
    expired_count = 0;
  };
  config = record no_config {
    client_id = held (0x69 ∷ []);
    host = held (0x68 ∷ []);
    port = 1883;
    timeout_in_ms = 5000;
    keepalive_in_ms = 60000;
  };
  stats = no_stats;
  mailbox = client.mailbox;
  events = [];
}

-- A client that is made and asked for a message: it is not started.
Lives-IsOrdered_example :
    IsOrdered (state_change_handler fresh_client 0 2 (pos 0) [] 9)
    × ((status : ℕ) × (current_status (state_change_handler fresh_client 0 2 (pos 0) [] 9)
          ≡ ok status))
unfolding create set_client_id set_host release
Lives-IsOrdered_example =
    Lives-IsOrdered line heap (state_change_handler fresh_client 0 2 (pos 0) [] 9) (
      told fresh_client 0 2 (pos 0) [] 9 (made true (0x69 ∷ []) (0x68 ∷ []) 1883 fresh_client refl))
