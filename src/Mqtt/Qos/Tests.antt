-- ===== src/Mqtt/Qos/Tests.antt =====
-- A table of three records with a record given up in front.
use libtr.Base.{
  ℕ, ◌+◌, ◌≤◌, ◌≡◌, refl, [], ◌∷◌, none, some, true, false, ltb, ◌==◌, ◌&&◌, if◌then◌else◌,
}
use libtr.Base.Int.{pos}
use libtr.Error.{ok, err_mqtt_qos_full, err_mqtt_qos_stopping}
use libtr.Mqtt.Qos.{QosRecord, Qos, blank, create, add, signal_loop, signal, clear, any_expired}
use libtr.Mqtt.Qos.Count.{waiting, IsValid, add_lem}
use libtr.Mqtt.Qos.Slots.{first_waiting, answer_of, freed, all_calls, signal_lem, clear_lem}
use libtr.Mqtt.Qos.Expiry.{some_due, any_expired_misses}
use libtr.Mqtt.Qos.Reach.{made, added, signalled, Reachable-IsValid}

abbrev entry : ℕ → QosRecord
entry id = record {
  is_used = true;
  msg_id = id;
  callback = some id;
  custom = 0;
  expiration_timestamp = 10;
}

-- Two messages wait, in the first two records.
abbrev two : Qos
two = record {
  max_size = 3;
  current_size = 2;
  records = entry 7 ∷ entry 8 ∷ blank ∷ [];
  timeout_in_sec = 5;
}

-- The first was acknowledged.
abbrev gap : Qos
gap = record {
  max_size = 3;
  current_size = 1;
  records = record (entry 7) { is_used = false } ∷ entry 8 ∷ blank ∷ [];
  timeout_in_sec = 5;
}

two-IsValid : IsValid two
two-IsValid = record { size = refl; count = refl }

gap-IsValid : IsValid gap
gap-IsValid = record { size = refl; count = refl }

two_acknowledged : (signal two 7).0 ≡ gap
unfolding signal signal_loop
two_acknowledged = refl

add_lem_example :
    IsValid (add two 9 none 0 6).0
    × ((add two 9 none 0 6).1 ≡ (if ltb 2 3 then pos 0 else err_mqtt_qos_full))
    × (waiting 9 (add two 9 none 0 6).0.records
        ≡ waiting 9 two.records + (if ltb 2 3 && 9 == 9 then 1 else 0))
add_lem_example = add_lem two 9 none 0 6 9 two-IsValid

signal_lem_example :
    IsValid (signal two 8).0
    × (((signal two 8).1, (signal two 8).2) ≡ answer_of (first_waiting 8 two.records))
    × (waiting 8 (signal two 8).0.records + freed (first_waiting 8 two.records) 8 8
        ≡ waiting 8 two.records)
signal_lem_example = signal_lem two 8 8 two-IsValid

clear_lem_example :
    IsValid (clear two err_mqtt_qos_stopping).0
    × ((clear two err_mqtt_qos_stopping).0.current_size ≡ 0)
    × ((clear two err_mqtt_qos_stopping).1 ≡ all_calls err_mqtt_qos_stopping two.records)
clear_lem_example = clear_lem two err_mqtt_qos_stopping two-IsValid

any_expired_misses_example : (any_expired gap 20).1 ≡ false
any_expired_misses_example = any_expired_misses gap 20 refl

gap_due : some_due 5 20 gap.records ≡ true
gap_due = refl

abbrev empty : Qos
empty = record {
  max_size = 3;
  current_size = 0;
  records = blank ∷ blank ∷ blank ∷ [];
  timeout_in_sec = 5;
}

empty_created : create true true 3 5 ≡ ok empty
unfolding create
empty_created = refl

Reachable-IsValid_example :
    IsValid (signal (add empty 7 none 0 5).0 7).0
    × ((signal (add empty 7 none 0 5).0 7).0.current_size
        ≤ (signal (add empty 7 none 0 5).0 7).0.max_size)
Reachable-IsValid_example =
    Reachable-IsValid 3 5 (signal (add empty 7 none 0 5).0 7).0
      (signalled (add empty 7 none 0 5).0 7 (added empty 7 none 0 5 (made empty empty_created)))
