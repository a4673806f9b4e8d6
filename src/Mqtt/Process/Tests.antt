-- ===== src/Mqtt/Process/Tests.antt =====
-- Received messages on concrete values.
use libtr.Base.{ℕ, ◌≡◌, [], ◌∷◌, List, arith, length, replicate, All, true, refl}
use libtr.Error.{ok, ◌>>=◌}
use libtr.Memory.{IsByte}
use libtr.Memory.Sample.{heap, heap-GivesSize}
use libtr.Mqtt.Build.{build_publish}
use libtr.Mqtt.Build.Layout.{frame_size, publish_len}
use libtr.Mqtt.Process.{process_connack, process_publish}
use libtr.Mqtt.Process.Acks.{connack_of, process_connack_lem}
use libtr.Mqtt.Process.Decode.{as_sent, publish_roundtrip}

abbrev topic : List ℕ
topic = 0x74 ∷ 0x72 ∷ []

publish_roundtrip_example :
    (build_publish heap topic 1 true 7 (1 ∷ 2 ∷ []) >>= λ msg.
    process_publish heap msg (length msg))
    ≡ ok (as_sent topic 1 7 (1 ∷ 2 ∷ []))
publish_roundtrip_example =
    publish_roundtrip heap heap topic 1 true 7 (1 ∷ 2 ∷ [])
      (replicate (frame_size (publish_len topic 1 (1 ∷ 2 ∷ []))) 0xAA) heap-GivesSize refl
      (replicate 3 0xAA, refl) (replicate 3 0xAA, refl) (omega arith) (omega arith) (omega arith)

ack_bytes : All IsByte (0x40 ∷ 2 ∷ 1 ∷ 4 ∷ [])
ack_bytes = ground arith

suback_bytes : All IsByte (0x90 ∷ 3 ∷ 0 ∷ 7 ∷ 1 ∷ [])
suback_bytes = ground arith

connack_bytes : All IsByte (0x20 ∷ 2 ∷ 0 ∷ 4 ∷ [])
connack_bytes = ground arith

process_connack_lem_example :
    process_connack (0x20 ∷ 2 ∷ 0 ∷ 4 ∷ []) 4 ≡ connack_of (0x20 ∷ 2 ∷ 0 ∷ 4 ∷ [])
process_connack_lem_example = process_connack_lem (0x20 ∷ 2 ∷ 0 ∷ 4 ∷ []) connack_bytes
