-- ===== src/Mqtt/Build/Tests.antt =====
-- The builders on concrete values.
use libtr.Base.{
  ◌<◌, length-replicate, ℕ, ◌≤◌, ◌-◌, ◌^◌, List, [], ◌∷◌, ◌++◌, ◌≡◌, Option, none, some, true,
  false, refl, arith, length, replicate,
}
use libtr.Error.{ok, fault}
use libtr.Memory.{Malloc}
use libtr.Memory.Sample.{heap, heap-GivesSize}
use libtr.Mqtt.Types.{msg_type_connect}
use libtr.Mqtt.Build.{build_connect, build_publish, publish_byte1}
use libtr.Mqtt.Build.Layout.{header, frame_size, field, id_field, publish_len, build_publish_layout}
use libtr.Mqtt.Build.Session.{connect_len, connect_head, optional_field, build_connect_layout}
use libtr.Mqtt.Build.Oversize.{build_publish_oversize}

-- "tr", "me" and "pw".
abbrev topic : List ℕ
topic = 0x74 ∷ 0x72 ∷ []

abbrev user : Option (List ℕ)
user = some (0x6d ∷ 0x65 ∷ [])

abbrev password : Option (List ℕ)
password = some (0x70 ∷ 0x77 ∷ [])

build_publish_layout_example :
    build_publish heap topic 1 true 7 (1 ∷ 2 ∷ [])
    ≡ ok (
        header (publish_byte1 1 true) (publish_len topic 1 (1 ∷ 2 ∷ []))
        ++ (field topic ++ (id_field 1 7 ++ (1 ∷ 2 ∷ []))))
build_publish_layout_example =
    build_publish_layout heap topic 1 true 7 (1 ∷ 2 ∷ [])
      (replicate (frame_size (publish_len topic 1 (1 ∷ 2 ∷ []))) 0xAA) heap-GivesSize (omega arith)
      (omega arith) (omega arith) refl

build_connect_layout_example :
    build_connect heap topic user password 60
    ≡ ok (
        header msg_type_connect (connect_len topic user password)
        ++ (connect_head user password 60
            ++ (field topic ++ (optional_field user ++ optional_field password))))
build_connect_layout_example =
    build_connect_layout heap topic user password 60
      (replicate (frame_size (connect_len topic user password)) 0xAA) heap-GivesSize (omega arith)
      (omega arith) (omega arith) (omega arith) refl

abbrev no_heap : Malloc
no_heap n = none

-- A payload of some size, which is not computed.
zeros : (n : ℕ) → (xs : List ℕ) × (length xs ≡ n)
zeros n = (replicate n 0, length-replicate n 0)

large_len : (xs : List ℕ) → length xs ≡ 2 ^ 28 → 2 ^ 28 ≤ publish_len topic 0 xs
large_len xs h = omega arith

int_len : (xs : List ℕ) → length xs ≡ 2 ^ 28 → publish_len topic 0 xs < 2 ^ 31
int_len xs h = omega arith

build_publish_oversize_example : build_publish heap topic 0 false 0 (zeros (2 ^ 28)).0 ≡ fault
build_publish_oversize_example =
    build_publish_oversize heap topic 0 false 0 (zeros (2 ^ 28)).0
      (replicate (publish_len topic 0 (zeros (2 ^ 28)).0 - 1) 0xAA)
      (large_len (zeros (2 ^ 28)).0 (zeros (2 ^ 28)).1)
      (int_len (zeros (2 ^ 28)).0 (zeros (2 ^ 28)).1) refl
