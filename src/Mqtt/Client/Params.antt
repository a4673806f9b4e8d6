-- ===== src/Mqtt/Client/Params.antt =====
-- The parameters of a connection: the `mqtt_connect_params_*` functions of mqtt/mqtt.c.
use libtr.Base.{ℕ, ◌+◌, length, List, Option, none, some, true, false, take}
use libtr.Error.{Res, ok, err, err_tr50_malloc}
use libtr.Memory.{Malloc}
use libtr.Mqtt.Net.{ConnectParams}

-- `_memory_clone` of a text: NULL where `malloc` fails.
abbrev pub clone_text : Malloc → List ℕ → Option (List ℕ)
clone_text malloc text = elim (malloc (length text + 1)) [ none ↦ none | some block ↦ some text ]

-- `sizeof(_MQTT_COONNECT_PARAMS)` on a 64-bit host.
abbrev pub sizeof_connect_params : ℕ
sizeof_connect_params = 96

-- `strncpy(params->client_id, client_id, 23)` cuts the identifier.
unfoldable pub connect_params_create : Malloc → List ℕ → List ℕ → ℕ → ℕ → Res ConnectParams
connect_params_create malloc client_id host port keepalive_in_sec =
    elim (malloc sizeof_connect_params) [
      | none ↦ err err_tr50_malloc
      | some block ↦ ok (record {
        host = clone_text malloc host;
        port = port;
        client_id = take 23 client_id;
        username = none;
        password = none;
        keepalive_in_sec = keepalive_in_sec;
        use_ssl = false;
        use_https_proxy = false;
        proxy_type = 0;
        proxy_addr = none;
        proxy_username = none;
        proxy_password = none;
      })
    ]

unfoldable pub connect_params_set_username :
    Malloc → ConnectParams → List ℕ → List ℕ → ConnectParams
connect_params_set_username malloc params username password = record params {
  username = clone_text malloc username;
  password = clone_text malloc password;
}

unfoldable pub connect_params_use_ssl : ConnectParams → ConnectParams
connect_params_use_ssl params = record params { use_ssl = true }

unfoldable pub connect_params_use_https_proxy : ConnectParams → ConnectParams
connect_params_use_https_proxy params = record params { use_ssl = true; use_https_proxy = true }

-- A text that is NULL leaves the field alone.
abbrev pub given : Malloc → Option (List ℕ) → Option (List ℕ) → Option (List ℕ)
given malloc none old = old
given malloc (some text) old = clone_text malloc text

unfoldable pub connect_params_use_proxy :
    Malloc → ConnectParams → ℕ → Option (List ℕ) → Option (List ℕ) → Option (List ℕ) → ConnectParams
connect_params_use_proxy malloc params type addr username password = record params {
  proxy_type = type;
  proxy_addr = given malloc addr params.proxy_addr;
  proxy_username = given malloc username params.proxy_username;
  proxy_password = given malloc password params.proxy_password;
}

abbrev pub connect_params_get_keepalive : ConnectParams → ℕ
connect_params_get_keepalive params = params.keepalive_in_sec
