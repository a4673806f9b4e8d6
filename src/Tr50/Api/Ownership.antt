-- ===== src/Tr50/Api/Ownership.antt =====
-- The outcome of `tr50_api_call_async`, whatever the publication and a sweep in between do.
use libtr.Tr50.Stats.{pub_sent_up}
use mathlib.Core.Path.{subst}
use libtr.Base.{
  not, ◌&&◌, sym, append-nil, ℕ, ◌+◌, ◌≡◌, refl, ap, ◌∙◌, List, [], ◌∷◌, ◌++◌, Option, none, some,
  Bool, true, false, ◌||◌, if◌then◌else◌, leb, length, Bool-cases, inl, inr, arith,
}
use libtr.Base.Int.{ℤ, pos, is_zero}
use libtr.Error.{Res, ok, err, fault, stuck}
use libtr.Memory.{Malloc}
use libtr.Mqtt.Net.{Net}
use libtr.Tr50.Client.{Client, Handle, not_ready}
use libtr.Tr50.Pending.{Message, obj, Store, Pending, write, modify, stamped, add}
use libtr.Tr50.Pending.Segment.{NotIn, Segment-frame, write-same, write-here}
use libtr.Tr50.Pending.Refine.{IsList, add-IsList}
use libtr.Tr50.Pending.Keeps.{added_view}
use libtr.Tr50.Pending.Sweep.{over_of, is_over, waiting}
use libtr.Tr50.Pending.Search.{id_of, Lacks, Lacks-same}
use libtr.Tr50.Api.{Topic, api, apiz, msg_id_next, build_payload}
use libtr.Tr50.Api.Call.{
  call_sent, asks, noted, topic_with_seq, publish_on, publish_waiting, call_async,
}
use libtr.Tr50.Api.Outcome.{kept_at, due_at, publish_refused, publish_sent}

-- Whether a sweep comes at `time` or later.
abbrev pub is_late : Option ℕ → ℕ → Bool
is_late none time = false
is_late (some now) time = leb time now

unless_late :
    (late : Bool) (message : ℕ)
    → (if late then [] else message ∷ []) ≡ (if not late then message ∷ [] else [])
unless_late true message = refl
unless_late false message = refl

pub noted-pending :
    (client : Client) (to_string : Res (List ℕ)) (topic : Topic) (payload : List ℕ)
    → (noted client to_string topic payload).pending ≡ client.pending
unfolding noted
noted-pending client (ok text) api payload = ground arith
noted-pending client (ok text) apiz payload = ground arith
noted-pending client (err e) topic payload = refl
noted-pending client fault topic payload = refl
noted-pending client stuck topic payload = refl

pub noted-mqtt :
    (client : Client) (to_string : Res (List ℕ)) (topic : Topic) (payload : List ℕ)
    → (noted client to_string topic payload).mqtt ≡ client.mqtt
unfolding noted
noted-mqtt client (ok text) api payload = ground arith
noted-mqtt client (ok text) apiz payload = ground arith
noted-mqtt client (err e) topic payload = refl
noted-mqtt client fault topic payload = refl
noted-mqtt client stuck topic payload = refl

-- A write to a message that is not in the list.
pub write-IsList :
    (pending : Pending) (xs : List ℕ) (a : ℕ) (m : Message)
    → IsList pending xs
    → NotIn a xs
    → IsList (record pending { store = write pending.store a m }) xs
write-IsList pending xs a m list out = record {
  linked =
      Segment-frame pending.store (write pending.store a m) none xs none pending.list_head
        pending.list_tail (write-same pending.store a m xs out) list.linked;
  distinct = list.distinct;
  counted = list.counted;
}

waiting-same :
    (now : ℕ) (store store' : Store) (a : ℕ) (m m' : Message) (xs : List ℕ)
    → NotIn a xs
    → ((b : ℕ) → over_of now (store' b) ≡ over_of now (write (write store a m) a m' b))
    → waiting (is_over now store') xs ≡ waiting (is_over now store) xs
waiting-same now store store' a m m' [] out same = refl
waiting-same now store store' a m m' (b ∷ xs) (here, out) same =
    let beside : is_over now store' b ≡ is_over now store b = same b ∙ ground (arith, here) in
    let rest = waiting-same now store store' a m m' xs out same in rw (beside, rest) refl

pub Lacks-write :
    (store : Store) (hash a : ℕ) (m : Message) (xs : List ℕ)
    → NotIn a xs
    → Lacks store hash xs
    → Lacks (write store a m) hash xs
Lacks-write store hash a m [] out lacks = tt
Lacks-write store hash a m (b ∷ xs) (here, out) ((m', got, other), lacks) =
    ((m', ground (arith, here, got), other), Lacks-write store hash a m xs out lacks)

-- What is seen of the list and of the message behind the addition.
module _ (store store' : Store) (a : ℕ) (m m' : Message)
    (times : (now b : ℕ)
      → over_of now (store' b) ≡ over_of now (write (write store a m) a m' b)) where
  kept_at-same :
      (meanwhile : Option ℕ) (xs : List ℕ)
      → NotIn a xs
      → kept_at meanwhile store' xs ≡ kept_at meanwhile store xs
  kept_at-same none xs out = refl
  kept_at-same (some now) xs out = waiting-same now store store' a m m' xs out (times now)

  due_at-late :
      (meanwhile : Option ℕ)
      → due_at meanwhile (store' a) ≡ is_late meanwhile m'.pending_expiration_timestamp
  due_at-late none = refl
  due_at-late (some now) = times now a ∙ ap (over_of now) (write-here (write store a m) a m')

pub modify_eq :
    (store : Store) (a : ℕ) (m : Message)
    → store a ≡ some m
    → (f : Message → Message) → modify store a f ≡ ok (write store a (f m))
unfolding modify
modify_eq store a m got f = rw (got, modify) refl

module _ {W : Type 0} (net : Net W) (malloc : Malloc) where
  -- The call up to its publication.
  call_async_eq :
      (client : Client) (message : ℕ) (m : Message) (callback : Option ℕ) (custom timeout : ℕ)
      (to_string : Res (List ℕ)) (deflate : List ℕ → Res (List ℕ)) (now : ℕ) (meanwhile : Option ℕ)
      (thread : ℕ) (w w' : W) (topic : Topic) (payload : List ℕ) (p1 : Pending) (ret : ℤ)
      (sent : Client) (found : Option ℕ)
      → let seq_id = msg_id_next client.seq_id in
        let m' = asks seq_id obj callback none custom timeout m in
        let asked = record client {
          seq_id = seq_id;
          pending = record client.pending { store = write client.pending.store message m' };
        } in
        let built = noted asked to_string topic payload in
        is_zero (not_ready client) ≡ true
        → client.pending.store message ≡ some m
        → build_payload to_string deflate client.compress ≡ ok (pos 0, topic, payload)
        → add built.pending message now ≡ ok p1
        → publish_waiting net malloc
            (record built { pending = p1 })
            seq_id
            (topic_with_seq topic seq_id)
            payload
            meanwhile
            thread
            w
          ≡ ok (ret, sent, found, w')
        → call_async net malloc client message callback custom timeout to_string deflate now
            meanwhile thread w
          ≡ ok (call_sent net malloc (length payload) (ret, sent, found, w'))
  unfolding call_async
  call_async_eq client message m callback custom timeout to_string deflate now meanwhile thread w w'
        topic payload p1 ret sent found ready got built added run =
      let stored =
        modify_eq client.pending.store message m got
          (asks (msg_id_next client.seq_id) obj callback none custom timeout) in
      rw (ready, call_async) (rw stored (rw built (rw added (rw run refl))))

  call_sent_good :
      (len : ℕ) (ret : ℤ) (sent : Client) (found : Option ℕ) (w : W)
      → is_zero ret ≡ true
      → call_sent net malloc len (ret, sent, found, w)
        ≡ (pos 0, record sent { stats = pub_sent_up sent.stats len }, w)
  unfolding call_sent
  call_sent_good len ret sent found w good = rw good refl

  call_sent_bad :
      (len : ℕ) (ret : ℤ) (sent : Client) (late : Bool) (a : ℕ) (w : W)
      → is_zero ret ≡ false
      → call_sent net malloc len (ret, sent, (if late then none else some a), w)
        ≡ ((if late then pos 0 else ret), sent, w)
  unfolding call_sent
  call_sent_bad len ret sent true a w bad = rw bad refl
  call_sent_bad len ret sent false a w bad = rw bad refl

  -- Where the client is started and not stopping, its list of requests is well linked, the message is
  -- fresh, none of the requests has the identifier it gets, and its payload is built,
  -- `tr50_api_call_async` returns, whatever the publication returns and a sweep meanwhile does. If
  -- the message is published, the call returns 0 and the message is the last of the list, unless
  -- the sweep came when its time was over. If not, the message is in the list no more, and the
  -- call returns the code of the publication, unless the sweep came when the time of the message
  -- was over: then the call returns 0. In both cases the other requests stay, well linked and in
  -- their order, but for those that the sweep takes out.
  pub call_async-outcome :
      (client : Client) (xs : List ℕ) (message : ℕ) (m : Message) (callback : Option ℕ)
      (custom timeout : ℕ) (to_string : Res (List ℕ)) (deflate : List ℕ → Res (List ℕ)) (now : ℕ)
      (meanwhile : Option ℕ) (thread : ℕ) (w w' : W) (topic : Topic) (payload : List ℕ) (ret : ℤ)
      (mqtt : Handle)
      → is_zero (not_ready client) ≡ true
      → IsList client.pending xs
      → NotIn message xs
      → client.pending.store message ≡ some m
      → m.pending_previous ≡ none
      → m.pending_next ≡ none
      → Lacks client.pending.store (msg_id_next client.seq_id) xs
      → build_payload to_string deflate client.compress ≡ ok (pos 0, topic, payload)
      → publish_on net malloc client.mqtt
          (topic_with_seq topic (msg_id_next client.seq_id))
          payload
          thread
          w
        ≡ ok (ret, mqtt, w')
      → (client' : Client) × (call_async net malloc client message callback custom timeout to_string
            deflate now meanwhile thread w
          ≡ ok (
            (if is_zero ret || is_late meanwhile (now + timeout) then pos 0 else ret),
            client',
            w',
          ))
        × IsList client'.pending (
            kept_at meanwhile client.pending.store xs
            ++ (if is_zero ret && not (is_late meanwhile (now + timeout))
                then message ∷ []
                else []))
  unfolding call_sent
  call_async-outcome client xs message m callback custom timeout to_string deflate now meanwhile
        thread w w' topic payload ret mqtt ready list out got no_prev no_next lacks payload_built
        sent =
      let seq_id = msg_id_next client.seq_id in
      let m' = asks seq_id obj callback none custom timeout m in
      let store1 = write client.pending.store message m' in
      let asked = record client {
        seq_id = seq_id;
        pending = record client.pending { store = store1 };
      } in
      let built = noted asked to_string topic payload in
      let (p1, added, list1) =
        add-IsList asked.pending xs message m' now
          (write-IsList client.pending xs message m' list out) out
          (write-here client.pending.store message m') no_prev no_next in
      let added' =
        ap (λ p. add p message now) (noted-pending asked to_string topic payload) ∙ added in
      let waits = record built { pending = p1 } in
      let m'' = stamped now m' in
      let here = write-here client.pending.store message m' in
      let ids =
        added_view id_of (λ m p. refl) (λ m p. refl) asked.pending p1 message now m' here added in
      let times = λ (now' b : ℕ).
        added_view (over_of now') (λ m p. refl) (λ m p. refl) asked.pending p1 message now m' here
          added b in
      let sent' =
        ap (λ h. publish_on net malloc h (topic_with_seq topic seq_id) payload thread w)
          (noted-mqtt asked to_string topic payload)
        ∙ sent in
      elim (Bool-cases (is_zero ret)) [
        | inl good ↦
            let (sent_client, run, list2) =
              publish_sent net malloc waits xs message seq_id (topic_with_seq topic seq_id) payload
                meanwhile thread w w' ret mqtt list1 sent' good in
            let late = due_at-late client.pending.store p1.store message m' m'' times meanwhile in
            let counted = record sent_client {
              stats = pub_sent_up sent_client.stats (length payload);
            } in
            rw good (
              counted,
              call_async_eq client message m callback custom timeout to_string deflate now meanwhile
                    thread w w' topic payload p1 ret sent_client none ready got payload_built added'
                    run
                  ∙ ap ok (call_sent_good (length payload) ret sent_client none w' good),
              subst (IsList sent_client.pending)
                  (ap (λ l. l ++ (if due_at meanwhile (p1.store message) then [] else message ∷ []))
                      (kept_at-same client.pending.store p1.store message m' m'' times meanwhile xs
                        out)
                    ∙ ap
                        (λ b.
                          kept_at meanwhile client.pending.store xs
                          ++ (if b then [] else message ∷ []))
                        late
                    ∙ ap (λ l. kept_at meanwhile client.pending.store xs ++ l)
                        (unless_late (is_late meanwhile (now + timeout)) message))
                  list2,
            )
        | inr bad ↦
            let lacks1 = Lacks-same (write store1 message m'') p1.store seq_id xs ids (
              Lacks-write store1 seq_id message m'' xs out
                (Lacks-write client.pending.store seq_id message m' xs out lacks)) in
            let carried = ids message ∙ ap id_of (write-here store1 message m'') in
            let (client', run, list2) =
              publish_refused net malloc waits xs message seq_id (topic_with_seq topic seq_id)
                payload meanwhile thread w w' ret mqtt list1 lacks1 carried sent' bad in
            let late = due_at-late client.pending.store p1.store message m' m'' times meanwhile in
            rw bad (
              client',
              call_async_eq client message m callback custom timeout to_string deflate now meanwhile
                    thread w w' topic payload p1 ret client'
                    (if due_at meanwhile (p1.store message) then none else some message) ready got
                    payload_built added' run
                  ∙ ap ok (
                      call_sent_bad (length payload) ret client'
                        (due_at meanwhile (p1.store message)) message w' bad
                      ∙ ap (λ b. ((if b then pos 0 else ret), client', w')) late),
              subst (IsList client'.pending)
                  (kept_at-same client.pending.store p1.store message m' m'' times meanwhile xs out
                    ∙ sym (append-nil (kept_at meanwhile client.pending.store xs)))
                  list2,
            )
      ]
