-- ===== src/Tr50/Sample.antt =====
-- A client with two requests that wait, whose MQTT client is connected.
use libtr.Base.{refl, [], ◌∷◌, none, some, true, false, replicate}
use libtr.Mqtt.Qos.{blank}
use libtr.Mqtt.Async.{AsyncClient, connected}
use libtr.Tr50.Client.{Client, running, started}
use libtr.Tr50.Config.{no_config}
use libtr.Tr50.Pending.{Message, obj, raw, write}
use libtr.Tr50.Pending.Refine.{IsList}
use libtr.Tr50.Stats.{no_stats}

abbrev pub mqtt : AsyncClient
mqtt = record {
  connect_params = record {
    host = some (0x68 ∷ []);
    port = 1883;
    client_id = 0x69 ∷ [];
    username = none;
    password = none;
    keepalive_in_sec = 60;
    use_ssl = false;
    use_https_proxy = false;
    proxy_type = 0;
    proxy_addr = none;
    proxy_username = none;
    proxy_password = none;
  };
  timeout_in_ms = 5000;
  msg_id_seq = 0;
  has_state_change_callback = false;
  state = connected;
  thread_id = 0;
  check_thread_id = false;
  mqtt = some (record { last_recv = 7; byte_sent = 17; byte_recv = 4 });
  qos = record {
    max_size = 32;
    current_size = 0;
    records = replicate 32 blank;
    timeout_in_sec = 30;
  };
  outstanding_ping = 0;
  stats_reconnect_count = 0;
  stats_reconnect_attempt_count = 0;
  stats_total_byte_sent = 0;
  stats_total_byte_recv = 0;
  events = [];
}

abbrev pub first : Message
first = record {
  message_type = raw;
  seq_id = 70;
  pending_sent_timestamp = 0;
  pending_expiration_timestamp = 9000;
  pending_previous = none;
  pending_next = some 2;
  callback_timeout = 9000;
  callback_custom = 5;
  raw_callback = some 7;
  reply_callback = none;
}

abbrev pub second : Message
second = record {
  message_type = obj;
  seq_id = 71;
  pending_sent_timestamp = 0;
  pending_expiration_timestamp = 1000;
  pending_previous = some 1;
  pending_next = none;
  callback_timeout = 1000;
  callback_custom = 6;
  raw_callback = none;
  reply_callback = some 8;
}

-- A message that was made and not sent yet.
abbrev pub third : Message
third = record {
  message_type = obj;
  seq_id = 0;
  pending_sent_timestamp = 0;
  pending_expiration_timestamp = 0;
  pending_previous = none;
  pending_next = none;
  callback_timeout = 0;
  callback_custom = 0;
  raw_callback = none;
  reply_callback = none;
}

abbrev pub client : Client
client = record {
  connect_params = none;
  mqtt = running mqtt;
  state = started;
  seq_id = 71;
  compress = true;
  is_stopping = false;
  should_reconnect_callback = false;
  non_api_callback = false;
  pending = record {
    store = write (write (write (λ b. none) 3 third) 2 second) 1 first;
    list_head = some 1;
    list_tail = some 2;
    count = 2;
    expired_count = 0;
  };
  config = record no_config { api_watcher_handler = true };
  stats = no_stats;
  mailbox = record {
    mailbox_suspend = false;
    mailbox_send_in_progress = false;
    mailbox_another_request = false;
    outstanding = 0;
  };
  events = [];
}

pub client-IsList : IsList client.pending (1 ∷ 2 ∷ [])
client-IsList = record {
  linked = (refl, first, refl, refl, (refl, second, refl, refl, (refl, refl)));
  distinct = ((refl, tt), (tt, tt));
  counted = refl;
}
