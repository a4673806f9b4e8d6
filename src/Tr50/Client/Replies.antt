-- ===== src/Tr50/Client/Replies.antt =====
-- What a reply does to the request that it answers.
use libtr.Tr50.Pending.Keeps.{found_view}
use libtr.Tr50.Pending.Unlink.{append-NotIn, Distinct-append}
use mathlib.Core.Path.{subst}
use libtr.Base.{
  ◌==◌, append-nil, All, ℕ, suc, ◌≡◌, refl, sym, ap, ◌∙◌, List, [], ◌∷◌, ◌++◌, Option, none, some,
  Bool, true, false, length, Bool-cases, Option-cases, inl, inr, arith,
}
use libtr.Base.Int.{ℤ, pos}
use libtr.Error.{Res, ok, err, ◌>>=◌}
use libtr.Tr50.Client.{Client, Event, watched, replied}
use libtr.Tr50.Client.Decimal.{print_decimal, atoi-print_decimal}
use libtr.Tr50.Client.Handlers.{
  callback_of, answer, watch, reply_to, after_reply, take_request, handle_publish, publish_handler,
  told_non_api, starts_with, topic_reply, topic_compress_reply,
}
use libtr.Tr50.Pending.{Message, MessageType, obj, raw, Pending, find_and_remove, forget}
use libtr.Tr50.Pending.Segment.{NotIn, Distinct, Segment-frame}
use libtr.Tr50.Pending.Refine.{IsList}
use libtr.Tr50.Pending.Remove.{first_with, find_and_remove-found}
use libtr.Tr50.Stats.{set_compress_ratio}

-- The events of a reply and of the watcher.
abbrev pub reply_events : Option ℕ → List ℕ → ℕ → List Event
reply_events none text custom = []
reply_events (some callback) text custom = replied callback (pos 0) (some text) custom ∷ []

abbrev pub watch_events : Bool → List ℕ → List Event
watch_events false text = []
watch_events true text = watched text true ∷ []

-- The topics "reply/" and "replyz/" with the identifier of a call lead to that call's request, the
-- second with the text that is decompressed.
pub publish_handler-reply :
    (from_string : List ℕ → Res Bool) (inflate : List ℕ → Res (List ℕ)) (client : Client)
    (seq_id : ℕ) (text out : List ℕ) (sent : ℤ)
    → inflate text ≡ ok out
    → (publish_handler from_string inflate client (topic_reply ++ print_decimal seq_id) text sent
        ≡ handle_publish from_string
            (told_non_api client (topic_reply ++ print_decimal seq_id) text)
            text
            (pos seq_id))
      × (publish_handler from_string inflate client
            (topic_compress_reply ++ print_decimal seq_id)
            text
            sent
          ≡ handle_publish from_string
              (let told = told_non_api client (topic_compress_reply ++ print_decimal seq_id) text in
                record told { stats = set_compress_ratio told.stats (length out) (length text) })
              out
              (pos seq_id))
unfolding publish_handler starts_with
publish_handler-reply from_string inflate client seq_id text out sent inflated =
    (rw (atoi-print_decimal seq_id) refl, rw (inflated, atoi-print_decimal seq_id) refl)

-- What of a message a reply depends on.
abbrev pub role_of : Option Message → Option (MessageType × Option ℕ × Option ℕ × ℕ)
role_of none = none
role_of (some m) = some (m.message_type, m.raw_callback, m.reply_callback, m.callback_custom)

pub forget-IsList :
    (pending : Pending) (xs : List ℕ) (a : ℕ)
    → IsList pending xs
    → NotIn a xs
    → IsList (forget pending a) xs
forget-IsList pending xs a list out = record {
  linked =
      Segment-frame pending.store (forget pending a).store none xs none pending.list_head
        pending.list_tail (same xs out) list.linked;
  distinct = list.distinct;
  counted = list.counted;
}
  where
    same : (ys : List ℕ) → NotIn a ys → All (λ b. (forget pending a).store b ≡ pending.store b) ys
    same [] h = tt
    same (b ∷ ys) (here, h) = (rw here refl, same ys h)

store_forgotten : (pending : Pending) (a : ℕ) → (forget pending a).store a ≡ none
store_forgotten pending a = rw (same a) refl
  where
    same : (b : ℕ) → b == b ≡ true
    same b = ground arith

take_request_eq :
    (client : Client) (seq_id : ℕ) (found : Option ℕ) (pending : Pending)
    → find_and_remove (suc client.pending.count) client.pending seq_id ≡ ok (found, pending)
    → take_request client (pos seq_id) ≡ ok (found, record client { pending = pending })
unfolding take_request
take_request_eq client seq_id found pending run = rw run refl

-- What `from_string` has to answer for a request of that kind.
abbrev pub Readable : (List ℕ → Res Bool) → List ℕ → MessageType → Type 0
Readable from_string text raw = Unit {0}
Readable from_string text obj = from_string text ≡ ok true

abbrev pub answered : Client → Option ℕ → ℕ → List ℕ → ℕ → Client
answered client callback custom text request =
    after_reply (reply_to client callback (pos 0) (some text) custom) text request

handle_publish_eq :
    (from_string : List ℕ → Res Bool) (client c1 : Client) (text : List ℕ) (seq_id : ℤ) (a : ℕ)
    (m : Message) (type : MessageType)
    → take_request client seq_id ≡ ok (some a, c1)
    → c1.pending.store a ≡ some m
    → m.message_type ≡ type
    → Readable from_string text type
    → handle_publish from_string client text seq_id
      ≡ ok (answered c1 (callback_of m) m.callback_custom text a)
unfolding handle_publish answer
handle_publish_eq from_string client c1 text seq_id a m raw taken got is_raw readable =
    rw (taken, handle_publish) (rw (got, ◌>>=◌) (rw (is_raw) refl))
handle_publish_eq from_string client c1 text seq_id a m obj taken got is_obj readable =
    rw (taken, handle_publish) (rw (got, ◌>>=◌) (rw (is_obj) (rw (readable, answer) refl)))

answered-events :
    (client : Client) (callback : Option ℕ) (custom : ℕ) (text : List ℕ) (request : ℕ)
    → (answered client callback custom text request).events
      ≡ (client.events ++ reply_events callback text custom)
        ++ watch_events client.config.api_watcher_handler text
answered-events client none custom text request =
    elim (Bool-cases client.config.api_watcher_handler) [
      | inl seen ↦
          rw seen (ap (λ l. l ++ (watched text true ∷ [])) (sym (append-nil client.events)))
      | inr unseen ↦ rw unseen (sym (append-nil (client.events ++ []) ∙ append-nil client.events))
    ]
answered-events client (some callback) custom text request =
    elim (Bool-cases client.config.api_watcher_handler) [
      | inl seen ↦ rw seen refl
      | inr unseen ↦
          rw unseen
            (sym (append-nil (client.events ++ (replied callback (pos 0) (some text) custom ∷ []))))
    ]

pub answered-pending :
    (client : Client) (callback : Option ℕ) (custom : ℕ) (text : List ℕ) (request : ℕ)
    → (answered client callback custom text request).pending ≡ forget client.pending request
answered-pending client none custom text request = ground arith
answered-pending client (some callback) custom text request = ground arith

-- A removal leaves what a reply depends on.
abbrev type_in : MessageType → Option (MessageType × Option ℕ × Option ℕ × ℕ) → MessageType
type_in default none = default
type_in default (some (type, _, _, _)) = type

abbrev callback_in : Option (MessageType × Option ℕ × Option ℕ × ℕ) → Option ℕ
callback_in none = none
callback_in (some (obj, raw_callback, reply_callback, custom)) = reply_callback
callback_in (some (raw, raw_callback, reply_callback, custom)) = raw_callback

abbrev custom_in : Option (MessageType × Option ℕ × Option ℕ × ℕ) → ℕ
custom_in none = 0
custom_in (some (_, _, _, custom)) = custom

callback_in-of : (m : Message) → callback_in (role_of (some m)) ≡ callback_of m
callback_in-of m = go m.message_type refl
  where
    go :
        (type : MessageType)
        → m.message_type ≡ type
        → callback_in (role_of (some m)) ≡ callback_of m
    go obj e = rw e refl
    go raw e = rw e refl

-- Where the list is well linked, a request in it has the identifier, and its reply can be read if the
-- request is not a raw one, the first such request is taken out of the list and deleted, its
-- callback is called once, with status 0 and the reply, and then the watcher of the application.
-- The other requests stay, well linked and in their order.
pub handle_publish-replied :
    (from_string : List ℕ → Res Bool) (client : Client) (xs : List ℕ) (seq_id a : ℕ) (m : Message)
    (text : List ℕ)
    → IsList client.pending xs
    → first_with client.pending.store seq_id xs ≡ some a
    → client.pending.store a ≡ some m
    → Readable from_string text m.message_type
    → (pre : List ℕ) × (post : List ℕ) × (client' : Client) × (xs ≡ pre ++ (a ∷ post))
      × (first_with client.pending.store seq_id pre ≡ none)
      × (handle_publish from_string client text (pos seq_id) ≡ ok client')
      × IsList client'.pending (pre ++ post)
      × (client'.pending.store a ≡ none)
      × (client'.events
          ≡ (client.events ++ reply_events (callback_of m) text m.callback_custom)
            ++ watch_events client.config.api_watcher_handler text)
handle_publish-replied from_string client xs seq_id a m text list found got readable =
    let (pre, post, p1, parts, no_earlier, run, list1) =
      find_and_remove-found (suc client.pending.count) client.pending xs seq_id a list
        (omega (arith, list.counted)) found in
    let c1 = record client { pending = p1 } in
    let (_, (out_post, _), _, (out_pre, _)) =
      Distinct-append pre (a ∷ post) (subst Distinct parts list.distinct) in
    let role =
      found_view role_of (λ m p. refl) (λ m p. refl) (suc client.pending.count) client.pending p1
        seq_id (some a) run a
      ∙ ap role_of got in
    elim (Option-cases (p1.store a)) [
      | inl gone ↦ absurd (cc (role, ap role_of gone))
      | inr (m1, got1) ↦
          let same_role = sym (ap role_of got1) ∙ role in
          let client' = answered c1 (callback_of m1) m1.callback_custom text a in
          let callback = sym (callback_in-of m1) ∙ (ap callback_in same_role ∙ callback_in-of m) in
          (
            pre,
            post,
            client',
            parts,
            no_earlier,
            handle_publish_eq from_string client c1 text (pos seq_id) a m1 m.message_type
                (take_request_eq client seq_id (some a) p1 run) got1 (ap (type_in obj) same_role)
                readable,
            subst (λ p. IsList p (pre ++ post))
                (sym (answered-pending c1 (callback_of m1) m1.callback_custom text a))
                (forget-IsList p1 (pre ++ post) a list1 (append-NotIn a pre post out_pre out_post)),
            ap (λ p. p.store a) (answered-pending c1 (callback_of m1) m1.callback_custom text a)
                ∙ store_forgotten p1 a,
            answered-events c1 (callback_of m1) m1.callback_custom text a
                ∙ ap
                    (λ l.
                      (client.events ++ l) ++ watch_events client.config.api_watcher_handler text)
                    (ap (λ c. reply_events c text m1.callback_custom) callback
                      ∙ ap (reply_events (callback_of m) text) (ap custom_in same_role)),
          )
    ]

watch-fields :
    (client : Client) (text : List ℕ)
    → ((watch client text true).pending ≡ client.pending)
      × ((watch client text true).events
          ≡ client.events ++ watch_events client.config.api_watcher_handler text)
watch-fields client text = elim (Bool-cases client.config.api_watcher_handler) [
  | inl seen ↦ rw seen (refl, refl)
  | inr unseen ↦ rw unseen (refl, sym (append-nil client.events))
]

handle_publish_eq-unreadable :
    (from_string : List ℕ → Res Bool) (client c1 : Client) (text : List ℕ) (seq_id : ℤ) (a : ℕ)
    (m : Message) (ret : ℤ)
    → take_request client seq_id ≡ ok (some a, c1)
    → c1.pending.store a ≡ some m
    → m.message_type ≡ obj
    → from_string text ≡ err ret
    → handle_publish from_string client text seq_id ≡ ok (watch c1 text true)
unfolding handle_publish answer
handle_publish_eq-unreadable from_string client c1 text seq_id a m ret taken got is_obj unreadable =
    rw (taken, handle_publish) (rw (got, ◌>>=◌) (rw (is_obj) (rw (unreadable, answer) refl)))

-- Where the list is well linked, the first request in it with the identifier is not a raw one and
-- its reply cannot be read, the request is taken out of the list, so that its time will never be
-- over, and its callback is not called: at most the watcher of the application is.
pub handle_publish-lost :
    (from_string : List ℕ → Res Bool) (client : Client) (xs : List ℕ) (seq_id a : ℕ) (m : Message)
    (text : List ℕ) (ret : ℤ)
    → IsList client.pending xs
    → first_with client.pending.store seq_id xs ≡ some a
    → client.pending.store a ≡ some m
    → m.message_type ≡ obj
    → from_string text ≡ err ret
    → (pre : List ℕ) × (post : List ℕ) × (client' : Client) × (xs ≡ pre ++ (a ∷ post))
      × (handle_publish from_string client text (pos seq_id) ≡ ok client')
      × IsList client'.pending (pre ++ post)
      × (client'.events ≡ client.events ++ watch_events client.config.api_watcher_handler text)
handle_publish-lost from_string client xs seq_id a m text ret list found got is_obj unreadable =
    let (pre, post, p1, parts, no_earlier, run, list1) =
      find_and_remove-found (suc client.pending.count) client.pending xs seq_id a list
        (omega (arith, list.counted)) found in
    let c1 = record client { pending = p1 } in
    let role =
      found_view role_of (λ m p. refl) (λ m p. refl) (suc client.pending.count) client.pending p1
        seq_id (some a) run a
      ∙ ap role_of got in
    elim (Option-cases (p1.store a)) [
      | inl gone ↦ absurd (cc (role, ap role_of gone))
      | inr (m1, got1) ↦
          let same_type = ap (type_in obj) (sym (ap role_of got1) ∙ role) ∙ is_obj in
          let (kept, told) = watch-fields c1 text in
          (
            pre,
            post,
            watch c1 text true,
            parts,
            handle_publish_eq-unreadable from_string client c1 text (pos seq_id) a m1 ret
                (take_request_eq client seq_id (some a) p1 run) got1 same_type unreadable,
            subst (λ p. IsList p (pre ++ post)) (sym kept) list1,
            told,
          )
    ]
