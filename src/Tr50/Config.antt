-- ===== src/Tr50/Config.antt =====
-- The configuration of a client: tr50.config.c. The texts are blocks of memory that the client
-- owns, so a field is NULL, a block, or a pointer to a block that was freed.
pub mod Texts
mod Tests
use libtr.Base.{ℕ, List, Option, none, some, Bool, true, false}
use libtr.Base.Int.{ℤ, pos}
use libtr.Error.{Res, ok, fault, ◌>>=◌, err_tr50_compress_not_supported}
use libtr.Memory.{Malloc}
use libtr.Mqtt.Client.Params.{clone_text}

pub data Text : Type 0 where
  null : Text
  held : List ℕ → Text
  freed : Text

-- `_TR50_CONFIG`. Of a callback it is known whether it is set.
pub record Config : Type 0 where
  pub client_id : Text
  pub host : Text
  pub port : ℕ
  pub ssl : Bool
  pub https_proxy : Bool
  pub keepalive_in_ms : ℕ
  pub timeout_in_ms : ℕ
  pub compress : Bool
  pub username : Text
  pub password : Text
  pub proxy_type : ℕ
  pub proxy_addr : Text
  pub proxy_username : Text
  pub proxy_password : Text
  pub should_reconnect_callback : Bool
  pub non_api_handler : Bool
  pub state_change_handler : Bool
  pub api_watcher_handler : Bool

-- `_memory_memset(config, 0, sizeof(_TR50_CONFIG))`.
abbrev pub no_config : Config
no_config = record {
  client_id = null;
  host = null;
  port = 0;
  ssl = false;
  https_proxy = false;
  keepalive_in_ms = 0;
  timeout_in_ms = 0;
  compress = false;
  username = null;
  password = null;
  proxy_type = 0;
  proxy_addr = null;
  proxy_username = null;
  proxy_password = null;
  should_reconnect_callback = false;
  non_api_handler = false;
  state_change_handler = false;
  api_watcher_handler = false;
}

-- `if (field) _memory_free(field)`: a block that was freed before is undefined behaviour.
unfoldable pub release : Text → Res (Unit {0})
release null = ok tt
release (held text) = ok tt
release freed = fault

-- `_memory_clone` of a text.
abbrev pub clone : Malloc → List ℕ → Text
clone malloc text = elim (clone_text malloc text) [ none ↦ null | some copy ↦ held copy ]

-- A field that is not set again points to the block that was freed.
abbrev pub left : Text → Text
left null = null
left (held text) = freed
left freed = freed

unfoldable pub set_host : Malloc → Config → List ℕ → Res Config
unfolding release
set_host malloc config host = do
  _ ← release config.host
  ok (record config { host = clone malloc host })

unfoldable pub set_client_id : Malloc → Config → List ℕ → Res Config
unfolding release
set_client_id malloc config client_id = do
  _ ← release config.client_id
  ok (record config { client_id = clone malloc client_id })

-- `tr50_config_set_username` and `tr50_config_set_password`: where the argument is NULL, the old
-- text is freed and the field keeps its pointer.
unfoldable pub set_username : Malloc → Config → Option (List ℕ) → Res Config
unfolding release
set_username malloc config username = do
  _ ← release config.username
  ok (record config {
    username = elim username [ none ↦ left config.username | some text ↦ clone malloc text ];
  })

unfoldable pub set_password : Malloc → Config → Option (List ℕ) → Res Config
unfolding release
set_password malloc config password = do
  _ ← release config.password
  ok (record config {
    password = elim password [ none ↦ left config.password | some text ↦ clone malloc text ];
  })

abbrev pub clone_given : Malloc → Option (List ℕ) → Text
clone_given malloc none = null
clone_given malloc (some text) = clone malloc text

-- `tr50_config_set_proxy`, which clears the three fields.
unfoldable pub set_proxy :
    Malloc → Config → ℕ → Option (List ℕ) → Option (List ℕ) → Option (List ℕ) → Res Config
unfolding release
set_proxy malloc config type addr username password = do
  _ ← release config.proxy_addr
  _ ← release config.proxy_username
  _ ← release config.proxy_password
  ok (record config {
    proxy_type = type;
    proxy_addr = clone_given malloc addr;
    proxy_username = clone_given malloc username;
    proxy_password = clone_given malloc password;
  })

-- `tr50_config_set_compress`, where `_compress_is_supported` answers `supported`.
unfoldable pub set_compress : Bool → Config → Bool → ℤ × Config
set_compress false config enabled = (err_tr50_compress_not_supported, config)
set_compress true config enabled = (pos 0, record config { compress = enabled })

-- `_tr50_config_delete`.
unfoldable pub delete : Config → Res Config
unfolding release
delete config = do
  _ ← release config.client_id
  _ ← release config.host
  _ ← release config.username
  _ ← release config.password
  _ ← release config.proxy_addr
  _ ← release config.proxy_username
  _ ← release config.proxy_password
  ok no_config
