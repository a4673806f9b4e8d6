-- ===== src/Mqtt/Qos/Slots.antt =====
-- An acknowledgement and the end of a connection: which records are given up, and which callbacks
-- are called.
use libtr.Base.{
  ℕ, ◌+◌, ◌-◌, ◌≤◌, ◌<◌, ◌≡◌, refl, List, [], ◌∷◌, ◌++◌, Option, none, some, true, false, ◌&&◌,
  ◌==◌, if◌then◌else◌, arith, sym, length, Option-cases, inl, inr, Bool-cases,
}
use libtr.Base.Int.{ℤ, pos}
use libtr.Error.{err_mqtt_qos_notfound}
use libtr.Mqtt.Qos.{QosRecord, Qos, Call, calls_of, signal_loop, signal, clear_loop, clear}
use libtr.Mqtt.Qos.Count.{
  use_of, use_of-idle, total, used_count, waits_for, waits_for-idle, waiting, IsValid,
}

-- The first record in use that waits for the identifier.
abbrev pub first_waiting : ℕ → List QosRecord → Option QosRecord
first_waiting msg_id [] = none
first_waiting msg_id (r ∷ records) =
    let later = first_waiting msg_id records in
    if r.is_used && r.msg_id == msg_id then some r else later

first_waiting-waits :
    (msg_id : ℕ) (records : List QosRecord) (r : QosRecord)
    → first_waiting msg_id records ≡ some r
    → (r.is_used ≡ true) × (r.msg_id ≡ msg_id)
first_waiting-waits msg_id [] r e = cc
first_waiting-waits msg_id (x ∷ records) r e = ground (arith, first_waiting-waits msg_id records r)

first_waiting-none :
    (msg_id : ℕ) (records : List QosRecord)
    → first_waiting msg_id records ≡ none
    → (waiting msg_id records ≡ 0) × (signal_loop msg_id records ≡ none)
unfolding signal_loop
first_waiting-none msg_id [] e = (refl, refl)
first_waiting-none msg_id (x ∷ records) e = ground (arith, first_waiting-none msg_id records)

-- The table with that record given up.
abbrev pub give_up : ℕ → List QosRecord → List QosRecord
give_up msg_id [] = []
give_up msg_id (r ∷ records) =
    let later = give_up msg_id records in
    if r.is_used && r.msg_id == msg_id then record r { is_used = false } ∷ records else r ∷ later

signal_loop-first :
    (msg_id : ℕ) (records : List QosRecord) (r : QosRecord)
    → first_waiting msg_id records ≡ some r
    → (signal_loop msg_id records
        ≡ some (give_up msg_id records, calls_of r.callback (pos 0) r.custom))
      × (length (give_up msg_id records) ≡ length records)
unfolding signal_loop
signal_loop-first msg_id [] r e = cc
signal_loop-first msg_id (x ∷ records) r e = ground (arith, signal_loop-first msg_id records r)

total-give_up :
    (f : QosRecord → ℕ)
    → ((r : QosRecord) → r.is_used ≡ false → f r ≡ 0)
    → (msg_id : ℕ) (records : List QosRecord) (r : QosRecord)
    → first_waiting msg_id records ≡ some r
    → total f (give_up msg_id records) + f r ≡ total f records
total-give_up f idle msg_id [] r e = cc
total-give_up f idle msg_id (x ∷ records) r e =
    ground (arith, idle (record x { is_used = false }) refl, total-give_up f idle msg_id records r)

-- The value of a callback that stands in the table, and `current_size` above 0 for it.
waiting-le : (msg_id : ℕ) (records : List QosRecord) → waiting msg_id records ≤ used_count records
waiting-le msg_id [] = omega arith
waiting-le msg_id (r ∷ records) = ground (arith, waiting-le msg_id records)

first_waiting-some :
    (msg_id : ℕ) (records : List QosRecord) (r : QosRecord)
    → first_waiting msg_id records ≡ some r
    → 0 < waiting msg_id records
first_waiting-some msg_id [] r e = cc
first_waiting-some msg_id (x ∷ records) r e = ground (arith, first_waiting-some msg_id records r)

waits_for-first :
    (msg_id id : ℕ) (r : QosRecord)
    → (r.is_used ≡ true) × (r.msg_id ≡ msg_id)
    → waits_for id r ≡ (if msg_id == id then 1 else 0)
waits_for-first msg_id id r h = ground arith

-- What an acknowledgement answers, and the calls that it makes.
abbrev pub answer_of : Option QosRecord → ℤ × List Call
answer_of none = (err_mqtt_qos_notfound, [])
answer_of (some r) = (pos 0, calls_of r.callback (pos 0) r.custom)

-- One if a record was found for `msg_id` and that is `id`.
abbrev pub freed : Option QosRecord → ℕ → ℕ → ℕ
freed none msg_id id = 0
freed (some r) msg_id id = if msg_id == id then 1 else 0

-- In a consistent table `mqtt_qos_signal` gives up the first record in use that waits for the
-- identifier: one record less waits for it and for no other identifier, and its callback alone is
-- called, with status 0. Where no record waits for it, the answer is ERR_MQTT_QOS_NOTFOUND, no
-- callback is called, and as many records wait as before. The table stays consistent.
pub signal_lem :
    (q : Qos) (msg_id id : ℕ)
    → IsValid q
    → IsValid (signal q msg_id).0
      × (((signal q msg_id).1, (signal q msg_id).2) ≡ answer_of (first_waiting msg_id q.records))
      × (waiting id (signal q msg_id).0.records + freed (first_waiting msg_id q.records) msg_id id
          ≡ waiting id q.records)
unfolding signal
signal_lem q msg_id id valid = elim (Option-cases (first_waiting msg_id q.records)) [
  | inl nobody ↦
      let eq : signal q msg_id ≡ (q, err_mqtt_qos_notfound, []) =
        ground (arith, first_waiting-none msg_id q.records nobody) in
      rw (eq, nobody) (valid, refl, omega arith)
  | inr (r, found) ↦
      let records = give_up msg_id q.records in
      let (got, size) = signal_loop-first msg_id q.records r found in
      let used = total-give_up use_of use_of-idle msg_id q.records r found in
      let waits = first_waiting-waits msg_id q.records r found in
      let some_wait = first_waiting-some msg_id q.records r found in
      let some_used = waiting-le msg_id q.records in
      let one : use_of r ≡ 1 = ground (arith, waits) in
      let calls = calls_of r.callback (pos 0) r.custom in
      let q' = record q { records = records; current_size = q.current_size - 1 } in
      let eq : signal q msg_id ≡ (q', pos 0, calls) =
        ground (arith, got, some_wait, some_used, valid.count) in
      rw (eq, found)
        (
          record { size = omega arith; count = omega arith },
          refl,
          omega (
            arith,
            total-give_up (waits_for id) (waits_for-idle id) msg_id q.records r found,
            waits_for-first msg_id id r waits,
          ),
        )
]

-- The callbacks of the records in use, from the front.
abbrev pub all_calls : ℤ → List QosRecord → List Call
all_calls status [] = []
all_calls status (r ∷ records) =
    (if r.is_used then calls_of r.callback status r.custom else []) ++ all_calls status records

clear_loop_lem :
    (status : ℤ) (records : List QosRecord) (size : ℕ)
    → size ≡ used_count records
    → ((clear_loop status records size).2 ≡ all_calls status records)
      × ((clear_loop status records size).1 ≡ 0)
      × (used_count (clear_loop status records size).0 ≡ 0)
      × (length (clear_loop status records size).0 ≡ length records)
unfolding clear_loop
clear_loop_lem status [] size e = (refl, e, refl, refl)
clear_loop_lem status (r ∷ records) size e = elim (Bool-cases r.is_used) [
  | inl used ↦ ground (arith, used, clear_loop_lem status records (size - 1))
  | inr free ↦ ground (arith, free, clear_loop_lem status records size)
]

all_calls-none :
    (status : ℤ) (records : List QosRecord) → used_count records ≡ 0 → all_calls status records ≡ []
all_calls-none status [] e = refl
all_calls-none status (r ∷ records) e = ground (arith, all_calls-none status records)

-- In a consistent table `mqtt_qos_clear` gives up every record in use and calls the callback of
-- each, where it has one, with the status, once and in the order of the table. The table stays
-- consistent.
pub clear_lem :
    (q : Qos) (status : ℤ)
    → IsValid q
    → IsValid (clear q status).0
      × ((clear q status).0.current_size ≡ 0)
      × ((clear q status).1 ≡ all_calls status q.records)
unfolding clear
clear_lem q status valid = elim (Bool-cases (q.current_size == 0)) [
  | inl empty ↦
      let zero_size : q.current_size ≡ 0 = ground (arith, empty) in
      let eq : clear q status ≡ (q, []) = rw (empty, clear) in
      rw eq (valid, zero_size, sym (all_calls-none status q.records (omega arith)))
  | inr full ↦
      let loop = clear_loop status q.records q.current_size in
      let (calls, size, used, len) = clear_loop_lem status q.records q.current_size valid.count in
      let eq : clear q status ≡ (record q { records = loop.0; current_size = loop.1 }, loop.2) =
        rw (full, clear) in
      rw eq (record { size = omega arith; count = omega arith }, size, calls)
]
