-- ===== src/Mqtt/Net.antt =====
-- What the client uses of its platform: sockets, the clocks and the decision of the application to
-- connect again. `W` is the state of the world, and each call answers and leads to a new one.
-- The functions of include/tr50/util/tcp.h and time.h are parameters: their code is the platform's.
use libtr.Base.{ℕ, List, Option, Bool}
use libtr.Base.Int.{ℤ}

-- The answer of `_tcp_recv`: the bytes that were read, or a negative code.
pub data Received : Type 0 where
  got : List ℕ → Received
  failed : ℤ → Received

-- `_MQTT_COONNECT_PARAMS`. A C string is the list of its bytes, and NULL is `none`.
pub record ConnectParams : Type 0 where
  pub host : Option (List ℕ)
  pub port : ℕ
  pub client_id : List ℕ
  pub username : Option (List ℕ)
  pub password : Option (List ℕ)
  pub keepalive_in_sec : ℕ
  pub use_ssl : Bool
  pub use_https_proxy : Bool
  pub proxy_type : ℕ
  pub proxy_addr : Option (List ℕ)
  pub proxy_username : Option (List ℕ)
  pub proxy_password : Option (List ℕ)

pub record Net (W : Type 0) : Type 0 where
  -- `_tcp_connect` and `_tcp_connect_proxy`, with the option TCP_OPTION_SECURE or without.
  pub tcp_connect : W → ConnectParams → Bool → ℤ × W
  pub tcp_connect_proxy : W → ConnectParams → Bool → ℤ × W
  pub tcp_disconnect : W → W
  pub tcp_send : W → List ℕ → ℤ × W
  pub tcp_recv : W → ℕ → Received × W
  pub time_now : W → ℕ × W
  -- `_time_now_in_sec`, which is read once between two calls that change the world.
  pub time_now_in_sec : W → ℕ
  -- `should_reconnect_callback(total_disconnected_in_ms, counter, ..)`.
  pub should_reconnect : W → ℕ → ℕ → Bool × W
  -- Whether `realloc` grants a block of that size.
  pub can_realloc : ℕ → Bool
