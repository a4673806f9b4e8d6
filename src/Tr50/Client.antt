-- ===== src/Tr50/Client.antt =====
-- The client of the TR50 protocol: tr50.c. Each function runs as one step under the client's mutex;
-- the callbacks of the application that it calls are recorded in `events`, in order.
pub mod Decimal
pub mod Start
pub mod Handlers
pub mod Mqtt
pub mod Replies
pub mod Order
pub mod Starting
use libtr.Base.{ℕ, suc, ◌+◌, List, Option, none, some, Bool, true, false, ◌||◌, leb, if◌then◌else◌}
use libtr.Base.Int.{ℤ, pos, is_zero}
use libtr.Error.{Res, ok, err, fault, err_tr50_not_connected, err_tr50_stopping}
use libtr.Mqtt.Net.{ConnectParams}
use libtr.Mqtt.Async.{
  AsyncClient, State, created, connecting, connected, broken, reconnecting, disabled, deleting,
  deleted, stats_byte_sent, stats_byte_recv, stats_clear,
}
use libtr.Tr50.Config.{Config}
use libtr.Tr50.Mailbox.{Mailbox}
use libtr.Tr50.Pending.{Pending}
use libtr.Tr50.Stats.{Stats, clear_send_recv}

-- `TR50_STATE_*`.
pub data ClientState : Type 0 where
  stopped : ClientState
  started : ClientState

-- `client->mqtt`: NULL, a client, or a pointer to a client that was freed.
pub data Handle : Type 0 where
  no_client : Handle
  running : AsyncClient → Handle
  dangling : Handle

-- A callback of the application that was called.
pub data Event : Type 0 where
  -- `non_api_callback(topic, data, ..)`.
  non_api : List ℕ → List ℕ → Event
  -- `api_watcher_handler(data, data_len, is_reply)`.
  watched : List ℕ → Bool → Event
  -- The reply callback of a request with its number, the status, and the reply that it is given.
  replied : ℕ → ℤ → Option (List ℕ) → ℕ → Event
  -- `state_change_handler(previous, current, ..)`.
  state_changed : ℕ → ℕ → Event

-- `_TR50_CLIENT`, and the callbacks called so far.
pub record Client : Type 0 where
  pub connect_params : Option ConnectParams
  pub mqtt : Handle
  pub state : ClientState
  pub seq_id : ℕ
  pub compress : Bool
  pub is_stopping : Bool
  pub should_reconnect_callback : Bool
  pub non_api_callback : Bool
  pub pending : Pending
  pub config : Config
  pub stats : Stats
  pub mailbox : Mailbox
  pub events : List Event

abbrev pub is_started : ClientState → Bool
is_started stopped = false
is_started started = true

-- The guards of each call that sends: the code that it returns, or 0.
unfoldable pub not_ready : Client → ℤ
not_ready client = elim client.state [
  | stopped ↦ err_tr50_not_connected
  | started ↦ if client.is_stopping then err_tr50_stopping else pos 0
]

-- `_tr50_should_reconnect_callback`; the answer of the application's callback is given.
unfoldable pub should_reconnect : Client → ℕ → Bool → Bool
should_reconnect client last_reconnect_in_ms answer =
    if client.should_reconnect_callback then answer else leb 60000 last_reconnect_in_ms

-- `TR50_STATUS_*`, and the states of the MQTT client by their numbers.
abbrev pub state_number : State → ℕ
state_number created = 0
state_number connecting = 1
state_number connected = 2
state_number broken = 3
state_number reconnecting = 4
state_number disabled = 5
state_number deleting = 6
state_number deleted = 7

-- `tr50_current_status`. The state of a client that was freed, or of NULL, is undefined behaviour.
unfoldable pub current_status : Client → Res ℕ
current_status client = if client.is_stopping then ok 6 else elim client.state [
  | stopped ↦ ok 7
  | started ↦ elim client.mqtt [
    | no_client ↦ fault
    | dangling ↦ fault
    | running mqtt ↦ ok (state_number mqtt.state)
  ]
]

-- `tr50_stats_byte_sent` and `tr50_stats_byte_recv`.
unfoldable pub byte_sent : Client → Res ℕ
byte_sent client = elim client.mqtt [
  | no_client ↦ ok client.stats.total_sent
  | running mqtt ↦ ok (client.stats.total_sent + stats_byte_sent mqtt)
  | dangling ↦ fault
]

unfoldable pub byte_recv : Client → Res ℕ
byte_recv client = elim client.mqtt [
  | no_client ↦ ok client.stats.total_recv
  | running mqtt ↦ ok (client.stats.total_recv + stats_byte_recv mqtt)
  | dangling ↦ fault
]

-- `tr50_stats_clear_send_recv`.
unfoldable pub clear_counters : Client → Res Client
clear_counters client = elim client.mqtt [
  | no_client ↦ ok (record client { stats = clear_send_recv client.stats })
  | running mqtt ↦
      ok (record client { mqtt = running (stats_clear mqtt); stats = clear_send_recv client.stats })
  | dangling ↦ fault
]
