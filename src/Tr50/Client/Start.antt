-- ===== src/Tr50/Client/Start.antt =====
-- The start and the stop of a client: `tr50_create`, `tr50_start2`, `tr50_stop` and `tr50_delete` of
-- tr50.c.
use libtr.Base.{
  [], ℕ, ◌+◌, ◌/◌, ◌%◌, ◌^◌, List, Option, none, some, Bool, true, false, ◌&&◌, ltb, if◌then◌else◌,
}
use libtr.Base.Int.{ℤ, pos, is_zero}
use libtr.Error.{
  Res, ok, err, fault, ◌>>=◌, err_tr50_malloc, err_tr50_already_started, err_tr50_already_stopped,
  err_tr50_stopping,
}
use libtr.Memory.{Malloc}
use libtr.Mqtt.Net.{ConnectParams, Net}
use libtr.Mqtt.Client.Params.{
  connect_params_create, connect_params_set_username, connect_params_use_ssl,
  connect_params_use_https_proxy, connect_params_use_proxy,
}
use libtr.Mqtt.Async.{async_connect, async_disconnect, stats_byte_sent, stats_byte_recv}
use libtr.Tr50.Client.{Client, Handle, no_client, running, dangling, stopped, started}
use libtr.Tr50.Config
use libtr.Tr50.Config.{Config, Text, null, held, freed, no_config, set_client_id, set_host}
use libtr.Tr50.Stats.{no_stats, clear_compression_ratio}

-- The client that `tr50_create` fills in, where its `malloc` succeeds.
unfoldable pub create : Malloc → Bool → List ℕ → List ℕ → ℕ → Res Client
unfolding set_client_id set_host
create malloc false client_id host port = err err_tr50_malloc
create malloc true client_id host port = do
  config ← set_client_id malloc no_config client_id
  config ← set_host malloc config host
  ok (record {
    connect_params = none;
    mqtt = no_client;
    state = stopped;
    seq_id = 0;
    compress = false;
    is_stopping = false;
    should_reconnect_callback = false;
    non_api_callback = false;
    pending = record {
      store = λ a. none;
      list_head = none;
      list_tail = none;
      count = 0;
      expired_count = 0;
    };
    config = record config { port = port; timeout_in_ms = 5000; keepalive_in_ms = 60000 };
    stats = no_stats;
    mailbox = record {
      mailbox_suspend = false;
      mailbox_send_in_progress = false;
      mailbox_another_request = false;
      outstanding = 0;
    };
    events = [];
  })

-- A text that a function is given by its pointer: a block that was freed cannot be read.
abbrev pub pointed : Text → Res (Option (List ℕ))
pointed null = ok none
pointed (held text) = ok (some text)
pointed freed = fault

-- A text that is read where it must not be NULL.
abbrev pub required : Text → Res (List ℕ)
required null = fault
required (held text) = ok text
required freed = fault

-- What is done to the parameters where there are some: the pointer stays NULL where `malloc` failed,
-- and a write through it is undefined behaviour.
abbrev pub with_params :
    Option ConnectParams → (ConnectParams → Res ConnectParams) → Res (Option ConnectParams)
with_params none f = fault
with_params (some params) f = do params ← f params; ok (some params)

unfoldable pub proxied : Malloc → Config → ConnectParams → Res ConnectParams
proxied malloc config params = do
  addr ← pointed config.proxy_addr
  username ← pointed config.proxy_username
  password ← pointed config.proxy_password
  ok (connect_params_use_proxy malloc params config.proxy_type addr username password)

unfoldable pub use_proxy : Malloc → Config → Option ConnectParams → Res (Option ConnectParams)
unfolding proxied
use_proxy malloc config params =
    if ltb 0 config.proxy_type then with_params params (proxied malloc config) else ok params

unfoldable pub use_username : Malloc → Config → Option ConnectParams → Res (Option ConnectParams)
use_username malloc config params = elim config.username [
  | null ↦ ok params
  | held username ↦ elim config.password [
    | null ↦ ok params
    | held password ↦
        with_params params
          (λ params. ok (connect_params_set_username malloc params username password))
    | freed ↦ fault
  ]
  | freed ↦ elim config.password [ null ↦ ok params | held password ↦ fault | freed ↦ fault ]
]

-- The code of `mqtt_connect_params_create` is not looked at.
abbrev pub created_params : Res ConnectParams → Option ConnectParams
created_params (ok params) = some params
created_params _ = none

abbrev pub with_flag :
    Bool → Option ConnectParams → (ConnectParams → ConnectParams) → Res (Option ConnectParams)
with_flag true params f = with_params params (λ params. ok (f params))
with_flag false params f = ok params

-- The parameters of the connection, from the configuration.
unfoldable pub params_of : Malloc → Config → Res (Option ConnectParams)
unfolding use_proxy use_username
params_of malloc config = do
  client_id ← required config.client_id
  host ← required config.host
  let keepalive_in_sec = config.keepalive_in_ms / 1000 % 2 ^ 16
  let params =
      created_params (connect_params_create malloc client_id host config.port keepalive_in_sec)
  params ← use_proxy malloc config params
  params ← with_flag config.ssl params connect_params_use_ssl
  params ← with_flag config.https_proxy params connect_params_use_https_proxy
  use_username malloc config params

-- What the platform answers while `mqtt_async_connect` runs: whether `malloc` gives the client, the
-- code of the mutex, whether it gives the table and its records, and the code of the thread.
pub record Setup : Type 0 where
  pub has_block : Bool
  pub mutex_ret : ℤ
  pub has_qos : Bool
  pub has_records : Bool
  pub thread_ret : ℤ

-- Whether the client of `mqtt_async_connect` is made: it is stored in `client->mqtt` then, also if
-- its thread does not start and it is freed again.
abbrev pub is_made : Setup → Bool
is_made setup = setup.has_block && is_zero setup.mutex_ret && setup.has_qos && setup.has_records

-- The fields that the start copies from the configuration.
unfoldable pub prepared : Client → Option ConnectParams → Client
unfolding clear_compression_ratio
prepared client params = record client {
  connect_params = params;
  compress = client.config.compress;
  stats = clear_compression_ratio client.stats;
  should_reconnect_callback = client.config.should_reconnect_callback;
  non_api_callback = client.config.non_api_handler;
  state = started;
}

-- What stands for NULL parameters, which are not read.
abbrev pub null_params : ConnectParams
null_params = record {
  host = none;
  port = 0;
  client_id = [];
  username = none;
  password = none;
  keepalive_in_sec = 0;
  use_ssl = false;
  use_https_proxy = false;
  proxy_type = 0;
  proxy_addr = none;
  proxy_username = none;
  proxy_password = none;
}

module _ {W : Type 0} (net : Net W) (malloc : Malloc) where
  -- The connection of a client that is prepared. NULL parameters are not read before the client is
  -- made. The third part is `*connect_error`.
  unfoldable pub connect_prepared :
      ℕ → Client → ConnectParams → Setup → W → Res (ℤ × Client × ℤ × W)
  connect_prepared fuel client params setup w = do
    (ret, mqtt, connect_error, w) ←
        async_connect net malloc fuel params true true true setup.has_block setup.mutex_ret
          setup.has_qos setup.has_records setup.thread_ret w
    elim mqtt [
      | some mqtt ↦ ok (ret, record client { mqtt = running mqtt }, connect_error, w)
      | none ↦
          let handle = if is_made setup then dangling else client.mqtt in
          ok (ret, record client { mqtt = handle; state = stopped }, connect_error, w)
    ]

  -- `tr50_start2`.
  unfoldable pub start : ℕ → Client → Setup → W → Res (ℤ × Client × ℤ × W)
  unfolding params_of prepared connect_prepared
  start fuel client setup w = elim client.state [
    | started ↦ ok (err_tr50_already_started, client, pos 0, w)
    | stopped ↦ do
      params ← params_of malloc client.config
      elim params [
        | some p ↦ connect_prepared fuel (prepared client (some p)) p setup w
        | none ↦ elim (is_made setup) [
          | true ↦ fault
          | false ↦ connect_prepared fuel (prepared client none) null_params setup w
        ]
      ]
  ]

  -- The end of `tr50_stop`. `mqtt_async_disconnect` always returns 0, and it returns behind the end of
  -- the client's thread; the counters are read before. They are below 2^31 here: `last_sent` and
  -- `last_recv` are an `int`.
  unfoldable pub disconnect : Client → Handle → W → Res (ℤ × Client × W)
  disconnect client no_client w = fault
  disconnect client dangling w = fault
  disconnect client (running mqtt) w = do
    (_, w) ← async_disconnect net malloc mqtt w
    ok (
      pos 0,
      record client {
        connect_params = none;
        mqtt = no_client;
        state = stopped;
        is_stopping = false;
        stats = record client.stats {
          total_sent = client.stats.total_sent + stats_byte_sent mqtt;
          total_recv = client.stats.total_recv + stats_byte_recv mqtt;
        };
      },
      w,
    )

  -- `tr50_stop`.
  unfoldable pub stop : Client → W → Res (ℤ × Client × W)
  unfolding disconnect
  stop client w = elim client.state [
    | stopped ↦ ok (err_tr50_already_stopped, client, w)
    | started ↦ elim client.is_stopping [
      | true ↦ ok (err_tr50_stopping, client, w)
      | false ↦ disconnect client client.mqtt w
    ]
  ]

-- What `tr50_delete` does to the configuration; the mutexes and the list of requests are freed.
unfoldable pub delete : Client → Res Config
unfolding Config.delete
delete client = Config.delete client.config
