-- ===== src/Mqtt/Qos/Expiry.antt =====
-- The search for a message whose acknowledgement is overdue.
use libtr.Base.{
  ℕ, zero, suc, ◌+◌, ◌≡◌, refl, List, [], ◌∷◌, Bool, true, false, ltb, if◌then◌else◌, arith, sym,
  ◌∙◌, length, take,
}
use libtr.Mqtt.Qos.{QosRecord, Qos, expired_loop, any_expired}
use libtr.Mqtt.Qos.Count.{used_count, waiting, IsValid}

-- A record in use whose time is over, at most `timeout` ago in the clock's terms.
abbrev pub is_due : ℕ → ℕ → QosRecord → Bool
is_due timeout now r =
    if r.is_used
    then (if ltb (now + timeout) r.expiration_timestamp
        then false
        else if ltb now r.expiration_timestamp
        then false
        else true)
    else false

abbrev pub some_due : ℕ → ℕ → List QosRecord → Bool
some_due timeout now [] = false
some_due timeout now (r ∷ records) =
    if is_due timeout now r then true else some_due timeout now records

expired_loop_lem :
    (timeout now rounds : ℕ) (records : List QosRecord)
    → ((expired_loop timeout now rounds records).1 ≡ some_due timeout now (take rounds records))
      × (length (expired_loop timeout now rounds records).0 ≡ length records)
      × (used_count (expired_loop timeout now rounds records).0 ≡ used_count records)
      × ((id : ℕ) → waiting id (expired_loop timeout now rounds records).0 ≡ waiting id records)
unfolding expired_loop
expired_loop_lem timeout now zero records = (refl, refl, refl, λ id. refl)
expired_loop_lem timeout now (suc rounds) [] = (refl, refl, refl, λ id. refl)
expired_loop_lem timeout now (suc rounds) (r ∷ records) =
    let (found, len, used, waits) = expired_loop_lem timeout now rounds records in
    (ground arith, ground arith, ground arith, λ id. ground (arith, waits id))

some_due-none :
    (timeout now : ℕ) (records : List QosRecord)
    → used_count records ≡ 0
    → some_due timeout now records ≡ false
some_due-none timeout now [] e = refl
some_due-none timeout now (r ∷ records) e = ground (arith, some_due-none timeout now records)

some_due-take :
    (timeout now n : ℕ) (records : List QosRecord)
    → used_count (take n records) ≡ used_count records
    → some_due timeout now (take n records) ≡ some_due timeout now records
some_due-take timeout now zero records e = sym (some_due-none timeout now records (omega arith))
some_due-take timeout now (suc n) [] e = refl
some_due-take timeout now (suc n) (r ∷ records) e =
    ground (arith, some_due-take timeout now n records (omega arith))

any_expired_eq :
    (q : Qos) (now : ℕ)
    → any_expired q now ≡ (
      record q { records = (expired_loop q.timeout_in_sec now q.current_size q.records).0 },
      (expired_loop q.timeout_in_sec now q.current_size q.records).1,
    )
unfolding any_expired expired_loop
any_expired_eq q now = ground arith

-- In a consistent table `mqtt_qos_any_expired` answers whether one of the first `current_size`
-- records is due, and it gives up no record: the table stays consistent, and as many records wait
-- for each identifier.
pub any_expired_lem :
    (q : Qos) (now id : ℕ)
    → IsValid q
    → IsValid (any_expired q now).0
      × (waiting id (any_expired q now).0.records ≡ waiting id q.records)
      × ((any_expired q now).1 ≡ some_due q.timeout_in_sec now (take q.current_size q.records))
any_expired_lem q now id valid =
    let (found, len, used, waits) =
      expired_loop_lem q.timeout_in_sec now q.current_size q.records in
    rw (any_expired_eq q now) (record { size = omega arith; count = omega arith }, waits id, found)

-- Where the records in use all stand among the first `current_size`, `mqtt_qos_any_expired` answers
-- whether any record of the table is due.
pub any_expired_packed :
    (q : Qos) (now : ℕ)
    → used_count (take q.current_size q.records) ≡ used_count q.records
    → (any_expired q now).1 ≡ some_due q.timeout_in_sec now q.records
any_expired_packed q now packed =
    let (found, len, used, waits) =
      expired_loop_lem q.timeout_in_sec now q.current_size q.records in
    rw (any_expired_eq q now)
      (found ∙ some_due-take q.timeout_in_sec now q.current_size q.records packed)

-- The loop of `mqtt_qos_any_expired` ends at `current_size`, not at `max_size`: where the records
-- in use all stand behind the first `current_size`, the answer is that none is overdue, whatever
-- the time is.
pub any_expired_misses :
    (q : Qos) (now : ℕ)
    → used_count (take q.current_size q.records) ≡ 0
    → (any_expired q now).1 ≡ false
any_expired_misses q now gap =
    let (found, len, used, waits) =
      expired_loop_lem q.timeout_in_sec now q.current_size q.records in
    rw (any_expired_eq q now)
      (found ∙ some_due-none q.timeout_in_sec now (take q.current_size q.records) gap)
