-- ===== src/Mqtt/Recv/Tests.antt =====
-- A PUBLISH of four bytes, and the byte behind it, from a socket that hands over one byte at a time.
use libtr.Base.{ℕ, ◌+◌, ◌≡◌, refl, List, [], ◌∷◌, ◌++◌, true, arith, length}
use libtr.Base.Int.{pos}
use libtr.Base.Order.{lt_wf}
use libtr.Error.{ok}
use libtr.Mqtt.Header.{encode_loop, encode_fixed_header_len}
use libtr.Mqtt.Client.{MqttClient, new_client}
use libtr.Mqtt.Recv.{mqtt_recv}
use libtr.Mqtt.Recv.Framing.{mqtt_recv-framing}
use libtr.Mqtt.Sample.{line, all_left, line-Delivers}

encode_2 :
    0x30 ∷ 0x02 ∷ 0x00 ∷ 0x00 ∷ 0x99 ∷ []
    ≡ 0x30 ∷ (encode_fixed_header_len 2 ++ ((0x00 ∷ 0x00 ∷ []) ++ (0x99 ∷ [])))
unfolding encode_fixed_header_len encode_loop lt_wf
encode_2 = refl

mqtt_recv-framing_example :
    (client : MqttClient) × (w : List ℕ) × (mqtt_recv line 7 true new_client 5000
        (0x30 ∷ 0x02 ∷ 0x00 ∷ 0x00 ∷ 0x99 ∷ [])
      ≡ ok (pos 0, (0x30 ∷ encode_fixed_header_len 2) ++ (0x00 ∷ 0x00 ∷ []), client, w))
    × (w ≡ 0x99 ∷ [])
    × (client.byte_recv ≡ 0 + (1 + length (encode_fixed_header_len 2)) + 2)
mqtt_recv-framing_example =
    mqtt_recv-framing line all_left 0 5000 line-Delivers 7 new_client
      (0x30 ∷ 0x02 ∷ 0x00 ∷ 0x00 ∷ 0x99 ∷ []) 0x30 2 (0x00 ∷ 0x00 ∷ []) (0x99 ∷ []) (omega arith)
      refl (omega arith) encode_2
