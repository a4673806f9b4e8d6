-- ===== src/Mqtt/Client/Send.antt =====
-- What the broker gets from `mqtt_puback`, and what the caller learns of a send that failed.
use libtr.Base.{
  ℕ, ◌+◌, ◌^◌, ◌<◌, ◌≡◌, refl, List, ◌∷◌, some, length, if◌then◌else◌, Bool-cases, inl, inr, arith,
}
use libtr.Base.Int.{pos, is_zero}
use libtr.Error.{ok}
use libtr.Memory.{Malloc, GivesSize}
use libtr.Memory.Fill.{u16}
use libtr.Mqtt.Net.{Net}
use libtr.Mqtt.Build.Session.{build_puback_layout}
use libtr.Mqtt.Client.{MqttClient, mqtt_send, mqtt_puback}

module _ {W : Type 0} (net : Net W) where
  -- `mqtt_send` hands the whole message to the socket once and returns 0, whatever the socket
  -- returns. Only a send that succeeded is counted.
  pub mqtt_send_lem :
      (client : MqttClient) (buf : List ℕ) (w : W)
      → ((mqtt_send net client buf w).0 ≡ pos 0)
        × ((mqtt_send net client buf w).2 ≡ (net.tcp_send w buf).1)
        × ((mqtt_send net client buf w).1.byte_sent
            ≡ client.byte_sent + (if is_zero (net.tcp_send w buf).0 then length buf else 0))
  unfolding mqtt_send
  mqtt_send_lem client buf w = elim (Bool-cases (is_zero (net.tcp_send w buf).0)) [
    | inl sent ↦ rw sent (refl, refl, refl)
    | inr lost ↦ rw lost (refl, refl, omega arith)
  ]

module _ {W : Type 0} (net : Net W) (malloc : Malloc) where
  -- Where `malloc` gives a block of four bytes and the QoS fits in 16 bits, the PUBACK that
  -- `mqtt_puback` sends carries the QoS where the identifier belongs, whatever the identifier is.
  pub mqtt_puback-qos :
      (client : MqttClient) (message_id qos : ℕ) (w : W) (block : List ℕ)
      → GivesSize malloc
      → qos < 2 ^ 16
      → malloc 4 ≡ some block
      → mqtt_puback net malloc client message_id qos w
        ≡ ok (mqtt_send net client (0x40 ∷ 0x02 ∷ u16 qos) w)
  unfolding mqtt_puback
  mqtt_puback-qos client message_id qos w block gives small room =
      rw (build_puback_layout malloc qos message_id block gives small room) refl
