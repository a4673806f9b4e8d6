-- ===== src/Mqtt/Client.antt =====
-- The connection to the broker: mqtt/mqtt.c, and `mqtt_send` of mqtt/mqtt.recv.c.
-- A function returns `ok (ret, ..)` where the C function returns the code `ret`.
pub mod Params
pub mod Send
mod Tests
use libtr.Base.{
  ℕ, ◌+◌, ◌-◌, List, [], ◌∷◌, Option, none, some, Bool, true, false, length, ltb, if◌then◌else◌,
}
use libtr.Base.Int.{ℤ, pos, is_zero}
use libtr.Error.{Res, ok, err, fault, stuck, err_tr50_malloc}
use libtr.Memory.{Malloc}
use libtr.Mqtt.Net.{Net, ConnectParams}
use libtr.Mqtt.Build.{
  build_connect, build_publish, build_puback, build_disconnect, build_ping, build_subscribe,
  build_unsubscribe,
}
use libtr.Mqtt.Process.{process_connack}

-- `_MQTT_CLIENT`; the socket is part of the world.
pub record MqttClient : Type 0 where
  pub last_recv : ℕ
  pub byte_sent : ℕ
  pub byte_recv : ℕ

-- `_memory_memset(client, 0, sizeof(_MQTT_CLIENT))`.
abbrev pub new_client : MqttClient
new_client = record { last_recv = 0; byte_sent = 0; byte_recv = 0 }

module _ {W : Type 0} (net : Net W) where
  -- `mqtt_send`: the function returns 0 whatever `_tcp_send` returns.
  unfoldable pub mqtt_send : MqttClient → List ℕ → W → ℤ × MqttClient × W
  mqtt_send client buf w =
      let (ret, w') = net.tcp_send w buf in
      (
        pos 0,
        (if is_zero ret
            then record client { byte_sent = client.byte_sent + length buf }
            else client),
        w',
      )

  -- What the functions below do with the message that was built for them.
  unfoldable pub send_request : Res (List ℕ) → MqttClient → W → Res (ℤ × MqttClient × W)
  unfolding mqtt_send
  send_request (ok req) client w = ok (mqtt_send client req w)
  send_request (err ret) client w = ok (ret, client, w)
  send_request fault client w = fault
  send_request stuck client w = stuck

module _ {W : Type 0} (net : Net W) (malloc : Malloc) where
  unfoldable pub mqtt_publish :
      MqttClient → ℕ → Bool → ℕ → List ℕ → List ℕ → W → Res (ℤ × MqttClient × W)
  unfolding send_request
  mqtt_publish client qos retain message_id topic payload w =
      send_request net (build_publish malloc topic qos retain message_id payload) client w

  -- The builder takes the identifier first, and the call gives it the QoS there.
  unfoldable pub mqtt_puback : MqttClient → ℕ → ℕ → W → Res (ℤ × MqttClient × W)
  unfolding send_request
  mqtt_puback client message_id qos w =
      send_request net (build_puback malloc qos message_id) client w

  unfoldable pub mqtt_ping : MqttClient → W → Res (ℤ × MqttClient × W)
  unfolding send_request
  mqtt_ping client w = send_request net (build_ping malloc) client w

  unfoldable pub mqtt_subscribe : MqttClient → ℕ → List ℕ → ℕ → W → Res (ℤ × MqttClient × W)
  unfolding send_request
  mqtt_subscribe client msg_id topic qos w =
      send_request net (build_subscribe malloc topic qos msg_id) client w

  unfoldable pub mqtt_unsubscribe : MqttClient → ℕ → List ℕ → W → Res (ℤ × MqttClient × W)
  unfolding send_request
  mqtt_unsubscribe client msg_id topic w =
      send_request net (build_unsubscribe malloc topic msg_id) client w

  -- `mqtt_disconnect`: where the message is not built, the socket stays open.
  unfoldable pub mqtt_disconnect : MqttClient → W → Res (ℤ × W)
  unfolding mqtt_send
  mqtt_disconnect client w = elim (build_disconnect malloc) [
    | ok msg ↦ let (ret, _, w') = mqtt_send net client msg w in ok (ret, net.tcp_disconnect w')
    | err ret ↦ ok (ret, w)
    | fault ↦ fault
    | stuck ↦ stuck
  ]

abbrev pub mqtt_stats_byte_sent : Option MqttClient → ℕ
mqtt_stats_byte_sent none = 0
mqtt_stats_byte_sent (some client) = client.byte_sent

abbrev pub mqtt_stats_byte_recv : Option MqttClient → ℕ
mqtt_stats_byte_recv none = 0
mqtt_stats_byte_recv (some client) = client.byte_recv

abbrev pub mqtt_stats_clear : MqttClient → MqttClient
mqtt_stats_clear client = record client { byte_recv = 0; byte_sent = 0 }
