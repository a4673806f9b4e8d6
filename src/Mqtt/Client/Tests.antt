-- ===== src/Mqtt/Client/Tests.antt =====
-- A message on a line that works.
use libtr.Base.{◌≡◌, refl, [], ◌∷◌, replicate, arith}
use libtr.Error.{ok}
use libtr.Memory.Fill.{u16}
use libtr.Memory.Sample.{heap, heap-GivesSize}
use libtr.Mqtt.Client.{new_client, mqtt_send, mqtt_puback}
use libtr.Mqtt.Client.Send.{mqtt_puback-qos}
use libtr.Mqtt.Sample.{line}

mqtt_puback-qos_example :
    mqtt_puback line heap new_client 258 1 []
    ≡ ok (mqtt_send line new_client (0x40 ∷ 0x02 ∷ u16 1) [])
mqtt_puback-qos_example =
    mqtt_puback-qos line heap new_client 258 1 [] (replicate 4 0xAA) heap-GivesSize (omega arith)
      refl
