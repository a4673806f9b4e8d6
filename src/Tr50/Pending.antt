-- ===== src/Tr50/Pending.antt =====
-- The list of requests that wait for a reply: tr50.pending.c. The messages stand in a store, known
-- by their addresses, and NULL is `none`. Times are in milliseconds.
pub mod Segment
pub mod Refine
pub mod Unlink
pub mod Keeps
pub mod Remove
pub mod Sweep
pub mod Delete
pub mod Search
mod Tests
use libtr.Base.{
  ◌∷◌, [], ltb, leb, List, ℕ, zero, suc, ◌+◌, ◌-◌, Option, none, some, Bool, true, false, ◌==◌,
  if◌then◌else◌,
}
use libtr.Error.{Res, ok, err, fault, stuck, ◌>>=◌}

-- `TR50_MESSAGE_TYPE_OBJ` and `TR50_MESSAGE_TYPE_RAW`.
pub data MessageType : Type 0 where
  obj : MessageType
  raw : MessageType

-- `_TR50_MESSAGE`, without its JSON tree. A callback is known by its number, and NULL is `none`.
-- A timeout is not negative here.
pub record Message : Type 0 where
  pub message_type : MessageType
  pub seq_id : ℕ
  pub pending_sent_timestamp : ℕ
  pub pending_expiration_timestamp : ℕ
  pub pending_previous : Option ℕ
  pub pending_next : Option ℕ
  pub callback_timeout : ℕ
  pub callback_custom : ℕ
  pub raw_callback : Option ℕ
  pub reply_callback : Option ℕ

abbrev pub Store : Type 0
Store = ℕ → Option Message

abbrev pub write : Store → ℕ → Message → Store
write store at m = λ b. if at == b then some m else store b

-- A write to a field of a message; one that is not there is undefined behaviour.
unfoldable pub modify : Store → ℕ → (Message → Message) → Res Store
modify store at f = elim (store at) [ none ↦ fault | some m ↦ ok (write store at (f m)) ]

-- `_TR50_PENDING`, with the messages that it points to.
pub record Pending : Type 0 where
  pub store : Store
  pub list_head : Option ℕ
  pub list_tail : Option ℕ
  pub count : ℕ
  pub expired_count : ℕ

abbrev pub stamped : ℕ → Message → Message
stamped now m = record m {
  pending_sent_timestamp = now;
  pending_expiration_timestamp = now + m.callback_timeout;
}

abbrev pub set_next : Option ℕ → Message → Message
set_next next m = record m { pending_next = next }

abbrev pub set_previous : Option ℕ → Message → Message
set_previous previous m = record m { pending_previous = previous }

-- `tr50_pending_add`.
unfoldable pub add : Pending → ℕ → ℕ → Res Pending
unfolding modify
add pending message now = do
  store ← modify pending.store message (stamped now)
  elim pending.list_tail [
    | none ↦ ok (record {
      store = store;
      list_head = some message;
      list_tail = some message;
      count = pending.count + 1;
      expired_count = pending.expired_count;
    })
    | some tail ↦ do
      store ← modify store tail (set_next (some message))
      store ← modify store message (set_previous (some tail))
      ok (record {
        store = store;
        list_head = pending.list_head;
        list_tail = some message;
        count = pending.count + 1;
        expired_count = pending.expired_count;
      })
  ]

-- The two halves of `_tr50_pending_linklist_remove`.
unfoldable pub unlink_previous : Store → Option ℕ → Option ℕ → Option ℕ → Res (Store × Option ℕ)
unfolding modify
unlink_previous store head none next = ok (store, next)
unlink_previous store head (some previous) next = do
  store ← modify store previous (set_next next)
  ok (store, head)

unfoldable pub unlink_next : Store → Option ℕ → Option ℕ → Option ℕ → Res (Store × Option ℕ)
unfolding modify
unlink_next store tail previous none = ok (store, previous)
unlink_next store tail previous (some next) = do
  store ← modify store next (set_previous previous)
  ok (store, tail)

unfoldable pub linklist_remove : Pending → ℕ → Res Pending
unfolding unlink_previous unlink_next
linklist_remove pending message = elim (pending.store message) [
  | none ↦ fault
  | some m ↦ do
    (store, head) ←
        unlink_previous pending.store pending.list_head m.pending_previous m.pending_next
    (store, tail) ← unlink_next store pending.list_tail m.pending_previous m.pending_next
    ok (record {
      store = store;
      list_head = head;
      list_tail = tail;
      count = pending.count - 1;
      expired_count = pending.expired_count;
    })
]

-- The loop of `tr50_pending_find_and_remove`, on fuel: the first message with the identifier.
unfoldable pub find : ℕ → Store → ℕ → Option ℕ → Res (Option ℕ)
find zero store hash ptr = stuck
find (suc fuel) store hash none = ok none
find (suc fuel) store hash (some ptr) = elim (store ptr) [
  | none ↦ fault
  | some m ↦ elim (m.seq_id == hash) [
    | true ↦ ok (some ptr)
    | false ↦ find fuel store hash m.pending_next
  ]
]

unfoldable pub find_and_remove : ℕ → Pending → ℕ → Res (Option ℕ × Pending)
unfolding find linklist_remove
find_and_remove fuel pending hash = do
  found ← find fuel pending.store hash pending.list_head
  elim found [
    | none ↦ ok (none, pending)
    | some ptr ↦ do pending ← linklist_remove pending ptr; ok (some ptr, pending)
  ]

-- `TR50_PENDING_TIME_SHIFT_ALLOW`.
abbrev pub time_shift_allow : ℕ
time_shift_allow = 3600000

-- What the sweep does with a message: it is given a new time, removed, or left alone.
pub data Fate : Type 0 where
  rescheduled : Fate
  expired : Fate
  kept : Fate

-- The tests of the sweep; a difference of times is signed in the source.
unfoldable pub fate_of : ℕ → Message → Fate
fate_of now m =
    if leb m.pending_expiration_timestamp now
    then (if ltb (now + time_shift_allow) m.pending_expiration_timestamp
        then rescheduled
        else expired)
    else (if ltb (m.pending_expiration_timestamp + (time_shift_allow + m.callback_timeout)) now
        then rescheduled
        else kept)

abbrev pub reschedule : ℕ → Message → Message
reschedule now m = record m { pending_expiration_timestamp = now + m.callback_timeout }

-- `tr50_message_delete`: a message that is gone cannot be read any more.
abbrev pub forget : Pending → ℕ → Pending
forget pending at = record pending { store = λ b. if at == b then none else pending.store b }

-- The count and the deletion of the messages that expired.
abbrev pub deleted : Pending → List ℕ → Pending
deleted pending [] = pending
deleted pending (a ∷ gone) =
    deleted (forget (record pending { expired_count = pending.expired_count + 1 }) a) gone

-- The inner loop of `_tr50_pending_expiration_handler`, on fuel, with the messages that expired, in
-- order. The loop does not come back to a message that it has taken out, so what the source does
-- with it there is done behind the loop (`sweep_at` of Tr50/Api/Call): its callback is called with
-- ERR_TR50_REQ_TIMEOUT, and it is counted and deleted (`deleted`).
unfoldable pub sweep : ℕ → ℕ → Pending → Option ℕ → Res (Pending × List ℕ)
unfolding fate_of linklist_remove modify
sweep zero now pending next = stuck
sweep (suc fuel) now pending none = ok (pending, [])
sweep (suc fuel) now pending (some ptr) = elim (pending.store ptr) [
  | none ↦ fault
  | some m ↦ elim (fate_of now m) [
    | rescheduled ↦ do
      store ← modify pending.store ptr (reschedule now)
      sweep fuel now (record pending { store = store }) m.pending_next
    | expired ↦ do
      pending ← linklist_remove pending ptr
      (pending, gone) ← sweep fuel now pending m.pending_next
      ok (pending, ptr ∷ gone)
    | kept ↦ sweep fuel now pending m.pending_next
  ]
]
