-- ===== src/Mqtt/Async/Tests.antt =====
-- A client that a broker accepts, and a message that it publishes.
use libtr.Mqtt.Connect.Outcome.{mqtt_connect-Linked, Linked}
use libtr.Base.{replicate, ◌≡◌, refl, [], ◌∷◌, none, some, true, false}
use libtr.Base.Int.{pos}
use libtr.Base.Order.{lt_wf}
use libtr.Error.{Holds, ok}
use libtr.Memory.{memcpy, peek}
use libtr.Memory.Sample.{heap}
use libtr.Mqtt.Header.{
  encode_loop, encode_fixed_header_len, calc_fheader_length, decode_loop, decode_header_length,
}
use libtr.Mqtt.Net.{ConnectParams}
use libtr.Mqtt.Build.{build_connect, build_publish, start, encode_string, encode_optional}
use libtr.Mqtt.Process.{process_connack, type_of, connack_code}
use libtr.Mqtt.Client.{mqtt_send, send_request, mqtt_publish}
use libtr.Mqtt.Recv.{received, header_loop, body_loop, finish, recv_body, mqtt_recv}
use libtr.Mqtt.Connect.{check_connack, connect_session, open_proxy, mqtt_connect}
use libtr.Mqtt.Qos.{create, blank, add, add_loop}
use libtr.Mqtt.Async.{
  connected, created, connecting, changed, AsyncClient, state_change, start_thread, open_client,
  async_connect, connection_of, end_request, request, publish_base,
}
use libtr.Mqtt.Async.Sound.{IsSound}
use libtr.Mqtt.Async.Life.{opened, published_to, Lives-IsSound}
use libtr.Mqtt.Sample.{line}

abbrev params : ConnectParams
params = record {
  host = some (0x68 ∷ []);
  port = 1883;
  client_id = 0x69 ∷ [];
  username = none;
  password = none;
  keepalive_in_sec = 60;
  use_ssl = false;
  use_https_proxy = false;
  proxy_type = 0;
  proxy_addr = none;
  proxy_username = none;
  proxy_password = none;
}

-- The client behind the broker's CONNACK.
abbrev online : AsyncClient
online = record {
  connect_params = params;
  timeout_in_ms = 5000;
  msg_id_seq = 0;
  has_state_change_callback = true;
  state = connected;
  thread_id = 0;
  check_thread_id = false;
  mqtt = some (record { last_recv = 7; byte_sent = 17; byte_recv = 4 });
  qos = record {
    max_size = 32;
    current_size = 0;
    records = replicate 32 blank;
    timeout_in_sec = 30;
  };
  outstanding_ping = 0;
  stats_reconnect_count = 0;
  stats_reconnect_attempt_count = 0;
  stats_total_byte_sent = 0;
  stats_total_byte_recv = 0;
  events = changed created connecting (pos 0) ∷ changed connecting connected (pos 0) ∷ [];
}

open_online :
    async_connect line heap 9 params true true true true
      (pos 0)
      true
      true
      (pos 0)
      (32 ∷ 2 ∷ 0 ∷ 0 ∷ [])
    ≡ ok (pos 0, some online, pos 0, [])
unfolding async_connect open_client start_thread state_change mqtt_connect open_proxy
    connect_session check_connack mqtt_recv recv_body header_loop body_loop finish received
    mqtt_send build_connect start encode_string encode_optional encode_fixed_header_len encode_loop
    lt_wf calc_fheader_length decode_header_length decode_loop memcpy peek process_connack type_of
    connack_code create
open_online = refl

-- The client behind a PUBLISH with QoS 1 that was sent.
abbrev busy : AsyncClient
busy = record online {
  msg_id_seq = 1;
  mqtt = some (record { last_recv = 7; byte_sent = 25; byte_recv = 4 });
  qos = record {
    max_size = 32;
    current_size = 1;
    records =
        record {
          is_used = true;
          msg_id = 0;
          callback = some 5;
          custom = 0;
          expiration_timestamp = 37;
        }
        ∷ replicate 31 blank;
    timeout_in_sec = 30;
  };
}

publish_busy :
    publish_base line heap online (0x74 ∷ []) (0x21 ∷ []) false 1 (some 5) 0 1 []
    ≡ ok (pos 0, busy, [])
unfolding publish_base request connection_of end_request state_change mqtt_publish send_request
    mqtt_send build_publish start encode_string encode_fixed_header_len encode_loop lt_wf
    calc_fheader_length memcpy add add_loop
publish_busy = refl

Lives-IsSound_example : IsSound busy
Lives-IsSound_example = Lives-IsSound line heap busy (
    published_to online busy (0x74 ∷ []) (0x21 ∷ []) false 1 (some 5) 0 1 (pos 0) [] []
      (opened 9 params true true true true (pos 0) true true (pos 0) (pos 0) (pos 0)
        (32 ∷ 2 ∷ 0 ∷ 0 ∷ []) [] online open_online)
      publish_busy)

mqtt_connect-Linked_example : Holds Linked (mqtt_connect line 9 heap params (32 ∷ 2 ∷ 0 ∷ 0 ∷ []))
mqtt_connect-Linked_example = mqtt_connect-Linked line 9 heap params (32 ∷ 2 ∷ 0 ∷ 0 ∷ [])
