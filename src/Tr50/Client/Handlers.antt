-- ===== src/Tr50/Client/Handlers.antt =====
-- The handlers of what the MQTT client receives: `_tr50_publish_handler`,
-- `_tr50_publish_handle_publish` and `_tr50_state_change_handler` of tr50.c. The JSON library and the
-- decompression are parameters.
use libtr.Base.{
  ◌||◌, ℕ, suc, List, [], ◌∷◌, ◌++◌, Option, none, some, Bool, true, false, drop, length, ◌==◌,
  ◌&&◌, if◌then◌else◌,
}
use libtr.Base.Int.{ℤ, pos, negsuc}
use libtr.Error.{Res, ok, err, fault, stuck, ◌>>=◌}
use libtr.Tr50.Client.{Stats, Mailbox, Client, non_api, watched, replied, state_changed}
use libtr.Tr50.Client.Decimal.{atoi}
use libtr.Tr50.Mailbox.{mailbox_check}
use libtr.Tr50.Pending.{Message, MessageType, obj, raw, find_and_remove, forget}
use libtr.Tr50.Stats.{
  mailbox_check_up, pub_recv_up, notify_up, set_compress_ratio, set_connected, set_last_error,
}

-- `_tr50_api_watcher_reply` and the other calls of the watcher.
abbrev pub watch : Client → List ℕ → Bool → Client
watch client text is_reply =
    if client.config.api_watcher_handler
    then record client { events = client.events ++ (watched text is_reply ∷ []) }
    else client

-- The callback of a message, by its type.
abbrev pub callback_of : Message → Option ℕ
callback_of m = elim m.message_type [ obj ↦ m.reply_callback | raw ↦ m.raw_callback ]

-- The call of a reply callback, where there is one.
abbrev pub reply_to : Client → Option ℕ → ℤ → Option (List ℕ) → ℕ → Client
reply_to client none status reply custom = client
reply_to client (some callback) status reply custom = record client {
  events = client.events ++ (replied callback status reply custom ∷ []);
}

-- The search for a request by the number in a topic. No request has a negative identifier.
unfoldable pub take_request : Client → ℤ → Res (Option ℕ × Client)
unfolding find_and_remove
take_request client (negsuc n) = ok (none, client)
take_request client (pos seq_id) = do
  (found, pending) ← find_and_remove (suc client.pending.count) client.pending seq_id
  ok (found, record client { pending = pending })

-- What follows the callback of a request.
abbrev pub after_reply : Client → List ℕ → ℕ → Client
after_reply client text request =
    watch
      (record client {
        stats = pub_recv_up client.stats (length text);
        pending = forget client.pending request;
      })
      text true

-- The answer to a request that was found, by its type. `tr50_message_from_string` answers whether the
-- text is a reply or a request of the server, or a code.
unfoldable pub answer :
    (List ℕ → Res Bool) → Client → ℕ → Message → List ℕ → MessageType → Res Client
unfolding pub_recv_up
answer from_string client request m text raw = ok (
    after_reply (reply_to client m.raw_callback (pos 0) (some text) m.callback_custom) text request)
answer from_string client request m text obj = elim (from_string text) [
  | fault ↦ fault
  | stuck ↦ stuck
  | err ret ↦ ok (watch client text true)
  | ok is_reply ↦ elim is_reply [
    | false ↦ ok client
    | true ↦ ok (
        after_reply (reply_to client m.reply_callback (pos 0) (some text) m.callback_custom) text
          request)
  ]
]

-- `_tr50_publish_handle_publish`.
unfoldable pub handle_publish : (List ℕ → Res Bool) → Client → List ℕ → ℤ → Res Client
unfolding take_request answer
handle_publish from_string client text seq_id = do
  (found, client) ← take_request client seq_id
  elim found [
    | none ↦ ok client
    | some request ↦ elim (client.pending.store request) [
      | none ↦ fault
      | some m ↦ answer from_string client request m text m.message_type
    ]
  ]

-- `strncmp(topic, prefix, strlen(prefix)) == 0`, and `strcmp(topic, text) == 0`.
unfoldable pub starts_with : List ℕ → List ℕ → Bool
starts_with [] topic = true
starts_with (c ∷ prefix) [] = false
starts_with (c ∷ prefix) (d ∷ topic) = c == d && starts_with prefix topic

unfoldable pub same_text : List ℕ → List ℕ → Bool
same_text [] [] = true
same_text [] (d ∷ t) = false
same_text (c ∷ s) [] = false
same_text (c ∷ s) (d ∷ t) = c == d && same_text s t

-- "reply/", "replyz/" and "notify/mailbox_activity".
abbrev pub topic_reply : List ℕ
topic_reply = 114 ∷ 101 ∷ 112 ∷ 108 ∷ 121 ∷ 47 ∷ []

abbrev pub topic_compress_reply : List ℕ
topic_compress_reply = 114 ∷ 101 ∷ 112 ∷ 108 ∷ 121 ∷ 122 ∷ 47 ∷ []

abbrev pub topic_mailbox : List ℕ
topic_mailbox =
    110 ∷ 111 ∷ 116 ∷ 105 ∷ 102 ∷ 121 ∷ 47 ∷ 109 ∷ 97 ∷ 105 ∷ 108 ∷ 98 ∷ 111 ∷ 120 ∷ 95 ∷ 97 ∷ 99
    ∷ 116 ∷ 105 ∷ 118 ∷ 105 ∷ 116 ∷ 121 ∷ []

-- The count of a mailbox check, which is taken where `tr50_mailbox_check` comes to send one.
abbrev check_counted : Mailbox → Stats → Stats
unfolding mailbox_check_up
check_counted box stats =
    if box.mailbox_suspend || box.mailbox_send_in_progress then stats else mailbox_check_up stats

-- The message on a topic that is none of the two: `sent` is what `tr50_message_create` and
-- `tr50_api_call_async` return for the mailbox check that is sent now. What that call does to the
-- list of requests is a call of its own, which follows (`call_async` of Tr50/Api/Call).
unfoldable pub handle_other : Client → List ℕ → ℤ → Client
unfolding same_text notify_up check_counted mailbox_check
handle_other client topic sent =
    if same_text topic topic_mailbox
    then record client {
      stats = check_counted client.mailbox (notify_up client.stats);
      mailbox = (mailbox_check client.mailbox sent).1;
    }
    else client

abbrev pub told_non_api : Client → List ℕ → List ℕ → Client
told_non_api client topic text =
    if client.non_api_callback
    then record client { events = client.events ++ (non_api topic text ∷ []) }
    else client

-- `_tr50_publish_handler`. The identifier stands behind the seventh or the sixth byte: the test for a
-- topic that starts with `a` never holds here.
unfoldable pub publish_handler :
    (List ℕ → Res Bool) → (List ℕ → Res (List ℕ)) → Client → List ℕ → List ℕ → ℤ → Res Client
unfolding handle_publish starts_with set_compress_ratio handle_other atoi
publish_handler from_string inflate client topic text sent =
    let told = told_non_api client topic text in
    elim (starts_with topic_compress_reply topic) [
      | true ↦ elim (inflate text) [
        | fault ↦ fault
        | stuck ↦ stuck
        | err ret ↦ ok told
        | ok out ↦
            let counted = record told {
              stats = set_compress_ratio told.stats (length out) (length text);
            } in
            handle_publish from_string counted out (atoi (drop 7 topic))
      ]
      | false ↦ elim (starts_with topic_reply topic) [
        | true ↦ handle_publish from_string told text (atoi (drop 6 topic))
        | false ↦ ok (handle_other told topic sent)
      ]
    ]

-- `_tr50_state_change_handler`: the states are given by their numbers.
unfoldable pub state_change_handler : Client → ℕ → ℕ → ℤ → List ℕ → ℕ → Client
unfolding set_connected set_last_error
state_change_handler client previous current error why now =
    let stats = set_last_error client.stats error why now in
    let noted = record client {
      stats = (if current == 2 then set_connected stats now else stats);
    } in
    if client.config.state_change_handler
    then record noted { events = noted.events ++ (state_changed previous current ∷ []) }
    else noted
