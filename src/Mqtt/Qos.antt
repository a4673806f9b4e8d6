-- ===== src/Mqtt/Qos.antt =====
-- The table of messages that wait for an acknowledgement: mqtt/mqtt.qos.c.
-- A callback is known by a number, `none` for NULL, and a call of it is recorded with its status
-- and custom pointer. `now` is what `_time_now_in_sec` returns; the model has no wrap of `int`.
-- Each function runs as one step: the callbacks do not use the table while `clear` walks it.
pub mod Count
pub mod Slots
pub mod Expiry
pub mod Reach
mod Tests
use libtr.Base.{
  ℕ, zero, suc, ◌+◌, ◌-◌, List, [], ◌∷◌, ◌++◌, Option, none, some, Bool, true, false, ltb, ◌==◌,
  if◌then◌else◌, length, replicate,
}
use libtr.Base.Int.{ℤ, pos}
use libtr.Error.{Res, ok, err, err_tr50_malloc, err_mqtt_qos_full, err_mqtt_qos_notfound}

-- `_MQTT_QOS_RECORD`.
pub record QosRecord : Type 0 where
  pub is_used : Bool
  pub msg_id : ℕ
  pub callback : Option ℕ
  pub custom : ℕ
  pub expiration_timestamp : ℕ

-- `_MQTT_QOS`, without its mutex.
pub record Qos : Type 0 where
  pub max_size : ℕ
  pub current_size : ℕ
  pub records : List QosRecord
  pub timeout_in_sec : ℕ

-- `callback(status, custom)`.
pub record Call : Type 0 where
  pub callback : ℕ
  pub status : ℤ
  pub custom : ℕ

-- `if (callback) callback(status, custom)`.
abbrev pub calls_of : Option ℕ → ℤ → ℕ → List Call
calls_of none status custom = []
calls_of (some callback) status custom =
    record { callback = callback; status = status; custom = custom } ∷ []

-- A record of `memset(.., 0, ..)`.
abbrev pub blank : QosRecord
blank = record {
  is_used = false;
  msg_id = 0;
  callback = none;
  custom = 0;
  expiration_timestamp = 0;
}

-- `mqtt_qos_create`; the two flags tell whether its calls of `malloc` succeed.
unfoldable pub create : Bool → Bool → ℕ → ℕ → Res Qos
create false records size timeout_in_sec = err err_tr50_malloc
create true false size timeout_in_sec = err err_tr50_malloc
create true true size timeout_in_sec = ok (record {
  max_size = size;
  current_size = 0;
  records = replicate size blank;
  timeout_in_sec = timeout_in_sec;
})

-- The loop of `mqtt_qos_add`: the first record that is not in use is filled.
unfoldable pub add_loop : QosRecord → List QosRecord → Option (List QosRecord)
add_loop entry [] = none
add_loop entry (r ∷ records) = elim r.is_used [
  | true ↦ elim (add_loop entry records) [ none ↦ none | some rest ↦ some (r ∷ rest) ]
  | false ↦ some (entry ∷ records)
]

abbrev pub entry_of : Qos → ℕ → Option ℕ → ℕ → ℕ → QosRecord
entry_of q msg_id callback custom now = record {
  is_used = true;
  msg_id = msg_id;
  callback = callback;
  custom = custom;
  expiration_timestamp = now + q.timeout_in_sec;
}

unfoldable pub add : Qos → ℕ → Option ℕ → ℕ → ℕ → Qos × ℤ
unfolding add_loop
add q msg_id callback custom now =
    elim (add_loop (entry_of q msg_id callback custom now) q.records) [
      | none ↦ (q, err_mqtt_qos_full)
      | some records ↦ (record q { records = records; current_size = q.current_size + 1 }, pos 0)
    ]

-- The loop of `mqtt_qos_signal`: the first record in use with the identifier is given up, and its
-- callback is called with status 0.
unfoldable pub signal_loop : ℕ → List QosRecord → Option (List QosRecord × List Call)
signal_loop msg_id [] = none
signal_loop msg_id (r ∷ records) = elim r.is_used [
  | false ↦ elim (signal_loop msg_id records) [
    | none ↦ none
    | some (rest, calls) ↦ some (r ∷ rest, calls)
  ]
  | true ↦ elim (r.msg_id == msg_id) [
    | false ↦ elim (signal_loop msg_id records) [
      | none ↦ none
      | some (rest, calls) ↦ some (r ∷ rest, calls)
    ]
    | true ↦ some (record r { is_used = false } ∷ records, calls_of r.callback (pos 0) r.custom)
  ]
]

unfoldable pub signal : Qos → ℕ → Qos × ℤ × List Call
unfolding signal_loop
signal q msg_id = elim (q.current_size == 0) [
  | true ↦ (q, err_mqtt_qos_notfound, [])
  | false ↦ elim (signal_loop msg_id q.records) [
    | none ↦ (q, err_mqtt_qos_notfound, [])
    | some (records, calls) ↦
        (record q { records = records; current_size = q.current_size - 1 }, pos 0, calls)
  ]
]

-- The loop of `mqtt_qos_clear`, with `current_size`: every record in use is given up, and its
-- callback is called with `status`.
unfoldable pub clear_loop : ℤ → List QosRecord → ℕ → List QosRecord × ℕ × List Call
clear_loop status [] current_size = ([], current_size, [])
clear_loop status (r ∷ records) current_size = elim r.is_used [
  | false ↦
      let (rest, size, calls) = clear_loop status records current_size in (r ∷ rest, size, calls)
  | true ↦
      let (rest, size, calls) = clear_loop status records (current_size - 1) in
      (record r { is_used = false } ∷ rest, size, calls_of r.callback status r.custom ++ calls)
]

unfoldable pub clear : Qos → ℤ → Qos × List Call
unfolding clear_loop
clear q status = elim (q.current_size == 0) [
  | true ↦ (q, [])
  | false ↦
      let (records, size, calls) = clear_loop status q.records q.current_size in
      (record q { records = records; current_size = size }, calls)
]

-- The loop of `mqtt_qos_any_expired`: it makes `rounds` rounds from the front of the table. A
-- record whose time stands too far ahead gets a new one, and the first that is due ends the loop.
unfoldable pub expired_loop : ℕ → ℕ → ℕ → List QosRecord → List QosRecord × Bool
expired_loop timeout now zero records = (records, false)
expired_loop timeout now (suc rounds) [] = ([], false)
expired_loop timeout now (suc rounds) (r ∷ records) =
    let (rest, found) = expired_loop timeout now rounds records in
    if r.is_used
    then (if ltb (now + timeout) r.expiration_timestamp
        then (record r { expiration_timestamp = timeout + now } ∷ rest, found)
        else if ltb now r.expiration_timestamp
        then (r ∷ rest, found)
        else (r ∷ records, true))
    else (r ∷ rest, found)

unfoldable pub any_expired : Qos → ℕ → Qos × Bool
unfolding expired_loop
any_expired q now =
    if q.current_size == 0
    then (q, false)
    else (let (records, found) = expired_loop q.timeout_in_sec now q.current_size q.records in
        (record q { records = records }, found))
