-- ===== src/Tr50/Api/Dangling.antt =====
-- A raw call whose compression fails: `tr50_api_raw_async` of tr50.api.async.c.
use libtr.Base.{
  ℕ, suc, ◌≤◌, ◌≡◌, refl, ap, ◌∙◌, List, [], ◌∷◌, ◌++◌, Option, none, some, true, false, leb, ◌&&◌,
  length, length-append, le→leb, arith, All,
}
use libtr.Base.Int.{ℤ, is_zero}
use libtr.Error.{Res, ok, err, fault, ◌>>=◌}
use libtr.Memory.{Malloc}
use libtr.Mqtt.Net.{Net}
use libtr.Tr50.Client.{Client, not_ready}
use libtr.Tr50.Client.Handlers.{watch}
use libtr.Tr50.Pending.{raw, Store, Pending, write, stamped, add, find, find_and_remove, forget}
use libtr.Tr50.Pending.Segment.{NotIn, Segment-split, Segment-frame, write-here}
use libtr.Tr50.Pending.Refine.{IsList, add-IsList}
use libtr.Tr50.Pending.Keeps.{added_view}
use libtr.Tr50.Pending.Search.{id_of, Lacks, Lacks-same, find-past}
use libtr.Tr50.Api.{msg_id_next}
use libtr.Tr50.Api.Call.{asks, new_message, raw_async}
use libtr.Tr50.Api.Ownership.{write-IsList, Lacks-write}

same_without :
    (pending : Pending) (a : ℕ) (xs : List ℕ)
    → NotIn a xs
    → All (λ b. (forget pending a).store b ≡ pending.store b) xs
same_without pending a [] out = tt
same_without pending a (b ∷ xs) (here, out) = (rw here refl, same_without pending a xs out)

Lacks-forget :
    (pending : Pending) (hash a : ℕ) (xs : List ℕ)
    → NotIn a xs
    → Lacks pending.store hash xs
    → Lacks (forget pending a).store hash xs
Lacks-forget pending hash a [] out lacks = tt
Lacks-forget pending hash a (b ∷ xs) (here, out) ((m, got, other), lacks) =
    ((m, ground (arith, here, got), other), Lacks-forget pending hash a xs out lacks)

find-none :
    (fuel : ℕ) (store : Store) (hash a : ℕ)
    → store a ≡ none
    → find (suc fuel) store hash (some a) ≡ fault
unfolding find
find-none fuel store hash a gone = rw (gone, find) refl

-- A message that was deleted at the end of the list: a search that gets there reads it.
find_and_remove-forgotten :
    (pending : Pending) (xs : List ℕ) (a hash : ℕ)
    → IsList pending (xs ++ (a ∷ []))
    → NotIn a xs
    → Lacks pending.store hash xs
    → find_and_remove (suc pending.count) (forget pending a) hash ≡ fault
unfolding find_and_remove
find_and_remove-forgotten pending xs a hash list out lacks =
    let (middle, last, front, (next, m, got, prev, (behind, end))) =
      Segment-split pending.store none xs (a ∷ []) none pending.list_head pending.list_tail
        list.linked in
    let store = (forget pending a).store in
    let front' =
      Segment-frame pending.store store none xs middle pending.list_head last
        (same_without pending a xs out) front in
    let gone : store a ≡ none = ground arith in
    let reached : find (suc pending.count) store hash pending.list_head ≡ fault =
      find-past 2 (suc pending.count) store hash none xs middle pending.list_head last front'
        (Lacks-forget pending hash a xs out lacks)
        (omega (arith, list.counted, length-append xs (a ∷ [])))
      ∙ (ap (find 2 store hash) next ∙ find-none 1 store hash a gone) in
    rw reached refl

module _ {W : Type 0} (net : Net W) (malloc : Malloc) where
  raw_async_eq :
      (client : Client) (message : ℕ) (request : List ℕ) (callback : Option ℕ) (custom timeout : ℕ)
      (deflate : List ℕ → Res (List ℕ)) (now : ℕ) (meanwhile : Option ℕ) (thread : ℕ) (w : W)
      (p1 : Pending) (ret : ℤ)
      → let made = asks (msg_id_next client.seq_id) raw none callback custom timeout new_message in
        is_zero (not_ready client) ≡ true
        → client.compress ≡ true
        → leb 128 (length request) ≡ true
        → deflate request ≡ err ret
        → add
            (record client.pending { store = write client.pending.store message made })
            message
            now
          ≡ ok p1
        → raw_async net malloc client
            (some message)
            request
            callback
            custom
            timeout
            deflate
            now
            meanwhile
            thread
            w
          ≡ (let waits =
                watch
                  (record client { seq_id = msg_id_next client.seq_id; pending = p1 })
                  request
                  false in
              ok (ret, record waits { pending = forget waits.pending message }, w))
  unfolding raw_async
  raw_async_eq client message request callback custom timeout deflate now meanwhile thread w p1 ret
        ready on long failed added =
      let both : (client.compress && leb 128 (length request)) ≡ true = rw (on, long) refl in
      rw (ready, raw_async) (rw (added, ◌>>=◌) (rw both (rw failed refl)))

  watched-pending :
      (client : Client) (text : List ℕ) → (watch client text false).pending ≡ client.pending
  watched-pending client text = ground arith

  -- Where a client that compresses is started and not stopping, its list is well linked, the
  -- message is made at an address that is not in the list, the request has at least 128 bytes and
  -- its compression fails, `tr50_api_raw_async` returns the code of the compression and deletes a
  -- message that stays in the list: from then on a search for an identifier that none of the other
  -- requests has reads the deleted message.
  pub raw_async-dangles :
      (client : Client) (xs : List ℕ) (message : ℕ) (request : List ℕ) (callback : Option ℕ)
      (custom timeout : ℕ) (deflate : List ℕ → Res (List ℕ)) (now : ℕ) (meanwhile : Option ℕ)
      (thread : ℕ) (w : W) (ret : ℤ) (hash : ℕ)
      → is_zero (not_ready client) ≡ true
      → IsList client.pending xs
      → NotIn message xs
      → client.compress ≡ true
      → 128 ≤ length request
      → deflate request ≡ err ret
      → Lacks client.pending.store hash xs
      → (client' : Client) × (raw_async net malloc client
            (some message)
            request
            callback
            custom
            timeout
            deflate
            now
            meanwhile
            thread
            w
          ≡ ok (ret, client', w))
        × (find_and_remove (suc client'.pending.count) client'.pending hash ≡ fault)
  raw_async-dangles client xs message request callback custom timeout deflate now meanwhile thread w
        ret hash ready list out on long failed lacks =
      let seq_id = msg_id_next client.seq_id in
      let made = asks seq_id raw none callback custom timeout new_message in
      let start = record client.pending { store = write client.pending.store message made } in
      let here = write-here client.pending.store message made in
      let (p1, added, list1) =
        add-IsList start xs message made now (write-IsList client.pending xs message made list out)
          out here refl refl in
      let ids = added_view id_of (λ m p. refl) (λ m p. refl) start p1 message now made here added in
      let made' = stamped now made in
      let lacks1 = Lacks-same (write start.store message made') p1.store hash xs ids (
        Lacks-write start.store hash message made' xs out
          (Lacks-write client.pending.store hash message made xs out lacks)) in
      let waits = watch (record client { seq_id = seq_id; pending = p1 }) request false in
      let kept = watched-pending (record client { seq_id = seq_id; pending = p1 }) request in
      (
        record waits { pending = forget waits.pending message },
        raw_async_eq client message request callback custom timeout deflate now meanwhile thread w
            p1 ret ready on (le→leb 128 (length request) long) failed added,
        ap (λ p. find_and_remove (suc p.count) (forget p message) hash) kept
            ∙ find_and_remove-forgotten p1 xs message hash list1 out lacks1,
      )
