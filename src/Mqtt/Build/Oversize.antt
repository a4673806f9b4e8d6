-- ===== src/Mqtt/Build/Oversize.antt =====
-- The branches of the builders on which no message is returned.
use libtr.Base.{lt→ltb, ℕ, ◌+◌, ◌-◌, ◌^◌, arith, length, ◌≤◌, ◌<◌, ◌≡◌, List, Bool, none, some}
use libtr.Error.{err, fault, err_tr50_malloc}
use libtr.Memory.{Malloc, zeroed}
use libtr.Mqtt.Header.RoundTrip.{calc_fheader_length_small, calc_fheader_length_large}
use libtr.Mqtt.Build.{start, build_publish, build_subscribe, build_unsubscribe, publish_byte1}
use libtr.Mqtt.Build.Layout.{frame_size, publish_len}

start-no_memory :
    (malloc : Malloc) (remaining byte1 : ℕ)
    → remaining < 2 ^ 28
    → malloc (frame_size remaining) ≡ none
    → start malloc remaining byte1 ≡ err err_tr50_malloc
unfolding start
start-no_memory malloc remaining byte1 h e =
    rw (lt→ltb remaining (2 ^ 31) (omega arith), calc_fheader_length_small remaining h, e, start)

start-oversize :
    (malloc : Malloc) (remaining byte1 : ℕ) (block : List ℕ)
    → 2 ^ 28 ≤ remaining
    → remaining < 2 ^ 31
    → malloc (remaining - 1) ≡ some block
    → start malloc remaining byte1 ≡ fault
unfolding start
start-oversize malloc remaining byte1 block h below e =
    rw (lt→ltb remaining (2 ^ 31) below, calc_fheader_length_large remaining h, e, start)

zeroed-none : (malloc : Malloc) → ((n : ℕ) → malloc n ≡ none) → (n : ℕ) → zeroed malloc n ≡ none
unfolding zeroed
zeroed-none malloc e n = rw (e n, zeroed)

-- Where the remaining length is above 268435455 but fits into an `int`, so is below 2^31, and `malloc`
-- succeeds, `_mqtt_msg_build_publish` does not refuse: the size of the header is -1, and it writes
-- in front of its block.
pub build_publish_oversize :
    (malloc : Malloc) (topic : List ℕ) (qos : ℕ) (retain : Bool) (msg_id : ℕ)
    (payload block : List ℕ)
    → 2 ^ 28 ≤ publish_len topic qos payload
    → publish_len topic qos payload < 2 ^ 31
    → malloc (publish_len topic qos payload - 1) ≡ some block
    → build_publish malloc topic qos retain msg_id payload ≡ fault
unfolding build_publish
build_publish_oversize malloc topic qos retain msg_id payload block h below e = rw (
    start-oversize malloc (publish_len topic qos payload) (publish_byte1 qos retain) block h below
      e)

-- Where `malloc` fails for a message of a size that MQTT allows, PUBLISH, SUBSCRIBE and
-- UNSUBSCRIBE are not built, and the caller gets ERR_TR50_MALLOC.
pub build_no_memory :
    (malloc : Malloc) (topic : List ℕ) (qos : ℕ) (retain : Bool) (msg_id : ℕ) (payload : List ℕ)
    → publish_len topic qos payload + 5 < 2 ^ 28
    → ((n : ℕ) → malloc n ≡ none)
    → (build_publish malloc topic qos retain msg_id payload ≡ err err_tr50_malloc)
      × (build_subscribe malloc topic qos msg_id ≡ err err_tr50_malloc)
      × (build_unsubscribe malloc topic msg_id ≡ err err_tr50_malloc)
unfolding build_publish build_subscribe build_unsubscribe
build_no_memory malloc topic qos retain msg_id payload h e = (
  rw (
      start-no_memory malloc (publish_len topic qos payload) (publish_byte1 qos retain)
        (omega arith) (e _)),
  rw (
      start-no_memory (zeroed malloc) (2 + 2 + length topic + 1) 0x82 (omega arith)
        (zeroed-none malloc e _)),
  rw (
      start-no_memory (zeroed malloc) (2 + 2 + length topic) 0xa2 (omega arith)
        (zeroed-none malloc e _)),
)
