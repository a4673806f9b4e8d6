-- ===== src/Mqtt/Qos/Count.antt =====
-- `current_size` counts the records in use, and each operation keeps it so.
use libtr.Base.{
  ℕ, ◌+◌, ◌≤◌, ◌<◌, ◌≡◌, refl, List, [], ◌∷◌, Option, none, some, true, false, ltb, ◌==◌, ◌&&◌,
  if◌then◌else◌, arith, length, Option-cases, inl, inr, Bool-cases,
}
use libtr.Base.Int.{pos}
use libtr.Error.{err_mqtt_qos_full}
use libtr.Mqtt.Qos.{QosRecord, Qos, add_loop, entry_of, add}

abbrev pub use_of : QosRecord → ℕ
use_of r = if r.is_used then 1 else 0

-- A sum over the records.
abbrev pub total : (QosRecord → ℕ) → List QosRecord → ℕ
total f [] = 0
total f (r ∷ records) = f r + total f records

abbrev pub used_count : List QosRecord → ℕ
used_count = total use_of

-- The records in use that wait for the identifier.
abbrev pub waits_for : ℕ → QosRecord → ℕ
waits_for msg_id r = if r.is_used then (if r.msg_id == msg_id then 1 else 0) else 0

abbrev pub waiting : ℕ → List QosRecord → ℕ
waiting msg_id = total (waits_for msg_id)

pub record IsValid (q : Qos) : Type 0 where
  pub size : length q.records ≡ q.max_size
  pub count : q.current_size ≡ used_count q.records

pub used_count-le : (records : List QosRecord) → used_count records ≤ length records
used_count-le [] = omega arith
used_count-le (r ∷ records) = ground (arith, used_count-le records)

-- A measure of the records that counts nothing for one that is not in use.
module _ (f : QosRecord → ℕ) (idle : (r : QosRecord) → r.is_used ≡ false → f r ≡ 0) where
  pub add_loop-total :
      (entry : QosRecord) (records records' : List QosRecord)
      → add_loop entry records ≡ some records'
      → (total f records' ≡ total f records + f entry) × (length records' ≡ length records)
  unfolding add_loop
  add_loop-total entry [] records' e = cc
  add_loop-total entry (r ∷ records) records' e = elim (Bool-cases r.is_used) [
    | inl used ↦ elim (Option-cases (add_loop entry records)) [
      | inl full ↦ ground (arith, used, full)
      | inr (rest, got) ↦ ground (arith, used, got, add_loop-total entry records rest got)
    ]
    | inr free ↦ ground (arith, free, idle r free)
  ]

add_loop-none :
    (entry : QosRecord) (records : List QosRecord)
    → add_loop entry records ≡ none
    → used_count records ≡ length records
unfolding add_loop
add_loop-none entry [] e = refl
add_loop-none entry (r ∷ records) e = elim (Bool-cases r.is_used) [
  | inl used ↦ elim (Option-cases (add_loop entry records)) [
    | inl full ↦ ground (arith, used, add_loop-none entry records full)
    | inr (rest, got) ↦ ground (arith, used, got)
  ]
  | inr free ↦ ground (arith, free)
]

add_loop-some :
    (entry : QosRecord) (records records' : List QosRecord)
    → add_loop entry records ≡ some records'
    → used_count records < length records
unfolding add_loop
add_loop-some entry [] records' e = cc
add_loop-some entry (r ∷ records) records' e = elim (Bool-cases r.is_used) [
  | inl used ↦ elim (Option-cases (add_loop entry records)) [
    | inl full ↦ ground (arith, used, full)
    | inr (rest, got) ↦ ground (arith, used, add_loop-some entry records rest got)
  ]
  | inr free ↦ ground (arith, free, used_count-le records)
]

pub use_of-idle : (r : QosRecord) → r.is_used ≡ false → use_of r ≡ 0
use_of-idle r h = ground arith

pub waits_for-idle : (msg_id : ℕ) (r : QosRecord) → r.is_used ≡ false → waits_for msg_id r ≡ 0
waits_for-idle msg_id r h = ground arith

-- In a consistent table `mqtt_qos_add` succeeds exactly if fewer than `max_size` records are in
-- use. Then one record more waits for the identifier, and for each other identifier as many as
-- before. Otherwise it answers ERR_MQTT_QOS_FULL and as many records wait as before. The table
-- stays consistent.
pub add_lem :
    (q : Qos) (msg_id : ℕ) (callback : Option ℕ) (custom now id : ℕ)
    → IsValid q
    → IsValid (add q msg_id callback custom now).0
      × ((add q msg_id callback custom now).1
          ≡ (if ltb q.current_size q.max_size then pos 0 else err_mqtt_qos_full))
      × (waiting id (add q msg_id callback custom now).0.records
          ≡ waiting id q.records + (if ltb q.current_size q.max_size && msg_id == id then 1 else 0))
unfolding add
add_lem q msg_id callback custom now id valid =
    let entry = entry_of q msg_id callback custom now in
    elim (Option-cases (add_loop entry q.records)) [
      | inl full ↦
          let all_used = add_loop-none entry q.records full in
          let eq : add q msg_id callback custom now ≡ (q, err_mqtt_qos_full) = rw (full, add) in
          let no_room : ltb q.current_size q.max_size ≡ false =
            ground (arith, all_used, valid.size, valid.count) in
          rw (eq, no_room) (valid, refl, omega arith)
      | inr (records, got) ↦
          let used = add_loop-total use_of use_of-idle entry q.records records got in
          let some_room = add_loop-some entry q.records records got in
          let room : ltb q.current_size q.max_size ≡ true =
            ground (arith, some_room, valid.size, valid.count) in
          let q' = record q { records = records; current_size = q.current_size + 1 } in
          let eq : add q msg_id callback custom now ≡ (q', pos 0) = rw (got, add) in
          rw (eq, room)
            (
              record { size = omega arith; count = omega arith },
              refl,
              (add_loop-total (waits_for id) (waits_for-idle id) entry q.records records got).0,
            )
    ]
