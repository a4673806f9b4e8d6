-- ===== src/Tr50/Client/Order.antt =====
-- What stays in order in a client: its list of requests, its counter, and its connection.
use libtr.Tr50.Client.Decimal.{atoi}
use libtr.Tr50.Stats.{set_compress_ratio}
use mathlib.Core.Path.{subst}
use libtr.Base.{
  drop, length, ℕ, suc, ◌≤◌, ◌≡◌, refl, sym, ap, ◌∙◌, List, ◌∷◌, ◌++◌, Option, none, some, Bool,
  true, false, Bool-cases, Option-cases, inl, inr, arith,
}
use libtr.Base.Int.{ℤ, pos, negsuc}
use libtr.Error.{Res, ok, fault, Holds, Res-cases}
use libtr.Tr50.Client.{
  state_number, Client, ClientState, Handle, no_client, running, dangling, started, stopped,
  is_started, current_status,
}
use libtr.Tr50.Client.Handlers.{
  topic_reply, topic_compress_reply, starts_with, watch, take_request, answer, handle_publish,
  handle_other, told_non_api, publish_handler, state_change_handler,
}
use libtr.Tr50.Client.Replies.{answered, answered-pending, forget-IsList}
use libtr.Tr50.Pending.{Message, MessageType, obj, raw, Pending, find_and_remove, forget}
use libtr.Tr50.Pending.Segment.{Distinct, NotIn}
use libtr.Tr50.Pending.Unlink.{Distinct-append, append-NotIn}
use libtr.Tr50.Pending.Refine.{IsList}
use libtr.Tr50.Pending.Remove.{first_with, find_and_remove-found, find_and_remove-missing}

abbrev pub is_running : Handle → Bool
is_running no_client = false
is_running (running mqtt) = true
is_running dangling = false

pub record IsOrdered (client : Client) : Type 0 where
  pub requests : List ℕ
  pub linked : IsList client.pending requests
  pub numbered : client.seq_id ≤ 65536
  pub connects : is_started client.state ≡ true → is_running client.mqtt ≡ true

-- The status of a client that is in order is defined.
pub status-IsOrdered :
    (client : Client) → IsOrdered client → (status : ℕ) × (current_status client ≡ ok status)
unfolding current_status
status-IsOrdered client order = elim (Bool-cases client.is_stopping) [
  | inl on ↦ (6, rw on refl)
  | inr off ↦ rw off (by_state client.state refl)
]
  where
    by_state :
        (state : ClientState)
        → client.state ≡ state
        → (status : ℕ) × (elim client.state [
          | stopped ↦ ok 7
          | started ↦ elim client.mqtt [
            | no_client ↦ fault
            | dangling ↦ fault
            | running mqtt ↦ ok (state_number mqtt.state)
          ]
        ]
            ≡ ok status)
    by_state stopped e = (7, rw e refl)
    by_state started e = rw e (by_mqtt client.mqtt refl (order.connects (rw e refl)))
      where
        by_mqtt :
            (mqtt : Handle)
            → client.mqtt ≡ mqtt
            → is_running client.mqtt ≡ true
            → (status : ℕ) × (elim client.mqtt [
              | no_client ↦ fault
              | dangling ↦ fault
              | running mqtt ↦ ok (state_number mqtt.state)
            ]
                ≡ ok status)
        by_mqtt no_client e on = absurd (cc (on, ap is_running e))
        by_mqtt dangling e on = absurd (cc (on, ap is_running e))
        by_mqtt (running mqtt) e on = (state_number mqtt.state, rw e refl)

-- A step that changes none of the fields that count.
pub same-IsOrdered :
    (client client' : Client)
    → IsOrdered client
    → client'.pending ≡ client.pending
    → client'.seq_id ≡ client.seq_id
    → client'.state ≡ client.state
    → client'.mqtt ≡ client.mqtt
    → IsOrdered client'
same-IsOrdered client client' order pending seq_id state mqtt = record {
  requests = order.requests;
  linked = subst (λ p. IsList p order.requests) (sym pending) order.linked;
  numbered = omega (arith, seq_id, order.numbered);
  connects = λ on. ap is_running mqtt ∙ order.connects (sym (ap is_started state) ∙ on);
}

-- A search in a list that is well linked returns, and leaves a list that is well linked. What it
-- found is not in it.
pub find_and_remove-returns :
    (pending : Pending) (xs : List ℕ) (hash : ℕ)
    → IsList pending xs
    → (found : Option ℕ) × (pending' : Pending) × (ys : List ℕ) × (find_and_remove
          (suc pending.count)
          pending
          hash
        ≡ ok (found, pending'))
      × IsList pending' ys
      × ((a : ℕ) → found ≡ some a → NotIn a ys)
find_and_remove-returns pending xs hash list =
    elim (Option-cases (first_with pending.store hash xs)) [
      | inl missing ↦ (
        none,
        pending,
        xs,
        find_and_remove-missing (suc pending.count) pending xs hash list
            (omega (arith, list.counted)) missing,
        list,
        λ a e. cc,
      )
      | inr (a, found) ↦
          let (pre, post, pending', parts, no_earlier, run, list') =
            find_and_remove-found (suc pending.count) pending xs hash a list
              (omega (arith, list.counted)) found in
          let (_, (out_post, _), _, (out_pre, _)) =
            Distinct-append pre (a ∷ post) (subst Distinct parts list.distinct) in
          (
            some a,
            pending',
            pre ++ post,
            run,
            list',
            λ b e.
                let same : a ≡ b = cc in
                subst (λ c. NotIn c (pre ++ post)) same (append-NotIn a pre post out_pre out_post),
          )
    ]

-- A client with another list that is in order.
pub pending-IsOrdered :
    (client : Client) (pending : Pending) (xs : List ℕ)
    → IsOrdered client
    → IsList pending xs
    → IsOrdered (record client { pending = pending })
pending-IsOrdered client pending xs order list = record {
  requests = xs;
  linked = list;
  numbered = order.numbered;
  connects = order.connects;
}

pub watch-IsOrdered :
    (client : Client) (text : List ℕ) (is_reply : Bool)
    → IsOrdered client
    → IsOrdered (watch client text is_reply)
watch-IsOrdered client text is_reply order =
    same-IsOrdered client (watch client text is_reply) order (ground arith) (ground arith)
      (ground arith) (ground arith)

-- The list behind a callback is the one without the message that was deleted.
answered-IsOrdered :
    (client : Client) (callback : Option ℕ) (custom : ℕ) (text : List ℕ) (a : ℕ) (xs : List ℕ)
    → IsOrdered client
    → IsList client.pending xs
    → NotIn a xs
    → IsOrdered (answered client callback custom text a)
answered-IsOrdered client callback custom text a xs order list out =
    same-IsOrdered (record client { pending = forget client.pending a })
      (answered client callback custom text a)
      (pending-IsOrdered client (forget client.pending a) xs order
        (forget-IsList client.pending xs a list out))
      (answered-pending client callback custom text a) (by_callback callback).0
      (by_callback callback).1 (by_callback callback).2
  where
    by_callback :
        (callback : Option ℕ)
        → ((answered client callback custom text a).seq_id ≡ client.seq_id)
          × ((answered client callback custom text a).state ≡ client.state)
          × ((answered client callback custom text a).mqtt ≡ client.mqtt)
    by_callback none = (ground arith, ground arith, ground arith)
    by_callback (some number) = (ground arith, ground arith, ground arith)

take_request-returns :
    (client : Client) (seq_id : ℤ)
    → IsOrdered client
    → (found : Option ℕ) × (client' : Client) × (ys : List ℕ) × (take_request client seq_id
        ≡ ok (found, client'))
      × IsOrdered client'
      × IsList client'.pending ys
      × ((a : ℕ) → found ≡ some a → NotIn a ys)
unfolding take_request
take_request-returns client (negsuc n) order =
    (none, client, order.requests, refl, order, order.linked, λ a e. cc)
take_request-returns client (pos seq_id) order =
    let (found, pending, ys, run, list, out) =
      find_and_remove-returns client.pending order.requests seq_id order.linked in
    (
      found,
      record client { pending = pending },
      ys,
      rw run refl,
      pending-IsOrdered client pending ys order list,
      list,
      out,
    )

answer-IsOrdered :
    (from_string : List ℕ → Res Bool) (client : Client) (ys : List ℕ) (a : ℕ) (m : Message)
    (text : List ℕ) (type : MessageType)
    → IsOrdered client
    → IsList client.pending ys
    → NotIn a ys
    → Holds IsOrdered (answer from_string client a m text type)
unfolding answer
answer-IsOrdered from_string client ys a m text raw order list out =
    answered-IsOrdered client m.raw_callback m.callback_custom text a ys order list out
answer-IsOrdered from_string client ys a m text obj order list out =
    elim (Res-cases (from_string text)) [
      | inl (true, e) ↦
          rw (e, answer)
            (answered-IsOrdered client m.reply_callback m.callback_custom text a ys order list out)
      | inl (false, e) ↦ rw (e, answer) order
      | inr (inl e) ↦ rw (e, answer) tt
      | inr (inr (inl e)) ↦ rw (e, answer) tt
      | inr (inr (inr (ret, e))) ↦ rw (e, answer) (watch-IsOrdered client text true order)
    ]

pub handle_publish-IsOrdered :
    (from_string : List ℕ → Res Bool) (client : Client) (text : List ℕ) (seq_id : ℤ)
    → IsOrdered client
    → Holds IsOrdered (handle_publish from_string client text seq_id)
unfolding handle_publish
handle_publish-IsOrdered from_string client text seq_id order =
    let (found, c1, ys, taken, order1, list, out) = take_request-returns client seq_id order in
    rw (taken, handle_publish) (by_found found c1 ys order1 list out)
  where
    by_found :
        (found : Option ℕ) (c1 : Client) (ys : List ℕ)
        → IsOrdered c1
        → IsList c1.pending ys
        → ((a : ℕ) → found ≡ some a → NotIn a ys)
        → Holds IsOrdered (elim found [
          | none ↦ ok c1
          | some request ↦ elim (c1.pending.store request) [
            | none ↦ fault
            | some m ↦ answer from_string c1 request m text m.message_type
          ]
        ])
    by_found none c1 ys order1 list out = order1
    by_found (some a) c1 ys order1 list out = elim (Option-cases (c1.pending.store a)) [
      | inl gone ↦ rw gone tt
      | inr (m, got) ↦
          rw got
            (answer-IsOrdered from_string c1 ys a m text m.message_type order1 list (out a refl))
    ]

pub publish_handler-IsOrdered :
    (from_string : List ℕ → Res Bool) (inflate : List ℕ → Res (List ℕ)) (client : Client)
    (topic text : List ℕ) (sent : ℤ)
    → IsOrdered client
    → Holds IsOrdered (publish_handler from_string inflate client topic text sent)
unfolding publish_handler handle_other
publish_handler-IsOrdered from_string inflate client topic text sent order =
    let told = told_non_api client topic text in
    let order1 =
      same-IsOrdered client told order (ground arith) (ground arith) (ground arith)
        (ground arith) in
    elim (Bool-cases (starts_with topic_compress_reply topic)) [
      | inl compressed ↦ elim (Res-cases (inflate text)) [
        | inl (out, e) ↦
            rw (compressed, publish_handler)
              (rw e (
                handle_publish-IsOrdered from_string
                  (record told { stats = set_compress_ratio told.stats (length out) (length text) })
                  out (atoi (drop 7 topic)) (same-IsOrdered told _ order1 refl refl refl refl)))
        | inr (inl e) ↦ rw (compressed, publish_handler) (rw e tt)
        | inr (inr (inl e)) ↦ rw (compressed, publish_handler) (rw e tt)
        | inr (inr (inr (ret, e))) ↦ rw (compressed, publish_handler) (rw e order1)
      ]
      | inr plain ↦ elim (Bool-cases (starts_with topic_reply topic)) [
        | inl reply ↦
            rw (plain, publish_handler)
              (rw reply
                (handle_publish-IsOrdered from_string told text (atoi (drop 6 topic)) order1))
        | inr other ↦
            rw (plain, publish_handler)
              (rw other (
                same-IsOrdered told (handle_other told topic sent) order1 (ground arith)
                  (ground arith) (ground arith) (ground arith)))
      ]
    ]

pub state_change_handler-IsOrdered :
    (client : Client) (previous current : ℕ) (error : ℤ) (why : List ℕ) (now : ℕ)
    → IsOrdered client
    → IsOrdered (state_change_handler client previous current error why now)
unfolding state_change_handler
state_change_handler-IsOrdered client previous current error why now order =
    same-IsOrdered client (state_change_handler client previous current error why now) order
      (ground arith) (ground arith) (ground arith) (ground arith)
