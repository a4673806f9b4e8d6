-- ===== src/Error.antt =====
-- The return codes of include/tr50/error.h that the modelled functions use, and what a C call may do.
use mathlib.Core.Path.{◌≡◌, refl}
use mathlib.Core.Logic.{◌⊎◌, inl, inr}
use libtr.Base.Int.{ℤ, neg}

-- `err` is a non-zero return code, and `fault` undefined behaviour: a read or a write outside an
-- object, or a sum or a product of the type `int` that overflows. `stuck` is no behaviour of the C code: a loop of the model ran out of fuel.
pub data Res {ℓ} (A : Type ℓ) : Type ℓ where
  ok : A → Res A
  err : ℤ → Res A
  fault : Res A
  stuck : Res A

infixl 5 ◌>>=◌
abbrev pub ◌>>=◌ {ℓ κ} : {A : Type ℓ} {B : Type κ} → Res A → (A → Res B) → Res B
ok a >>= f = f a
err e >>= f = err e
fault >>= f = fault
stuck >>= f = stuck

pub Res-cases {ℓ} :
    {A : Type ℓ} (r : Res A)
    → ((a : A) × (r ≡ ok a)) ⊎ (r ≡ fault) ⊎ (r ≡ stuck) ⊎ ((e : ℤ) × (r ≡ err e))
Res-cases (ok a) = inl (a, refl)
Res-cases fault = inr (inl refl)
Res-cases stuck = inr (inr (inl refl))
Res-cases (err e) = inr (inr (inr (e, refl)))

-- What holds of the value of a call that returns one.
abbrev pub Holds {ℓ κ} : {A : Type ℓ} → (A → Type κ) → Res A → Type κ
Holds P (ok a) = P a
Holds P _ = Unit {κ}

pub Holds-bind {ℓ κ μ} :
    {A : Type ℓ} {B : Type κ} (P : B → Type μ) (r : Res A) (f : A → Res B)
    → ((a : A) → r ≡ ok a → Holds P (f a))
    → Holds P (r >>= f)
Holds-bind P (ok a) f h = h a refl
Holds-bind P (err e) f h = tt
Holds-bind P fault f h = tt
Holds-bind P stuck f h = tt

pub Holds-then {ℓ κ μ ν} :
    {A : Type ℓ} {B : Type κ} (P : A → Type μ) (Q : B → Type ν) (r : Res A) (f : A → Res B)
    → Holds P r
    → ((a : A) → P a → Holds Q (f a))
    → Holds Q (r >>= f)
Holds-then P Q (ok a) f first next = next a first
Holds-then P Q (err e) f first next = tt
Holds-then P Q fault f first next = tt
Holds-then P Q stuck f first next = tt

abbrev pub err_tr50_parms : ℤ
err_tr50_parms = neg 18001

abbrev pub err_tr50_malloc : ℤ
err_tr50_malloc = neg 18002

abbrev pub err_tr50_not_connected : ℤ
err_tr50_not_connected = neg 18003

abbrev pub err_tr50_req_timeout : ℤ
err_tr50_req_timeout = neg 18005

abbrev pub err_tr50_code_missing : ℤ
err_tr50_code_missing = neg 18006

abbrev pub err_tr50_timeout : ℤ
err_tr50_timeout = neg 18009

abbrev pub err_tr50_async_client_not_connected : ℤ
err_tr50_async_client_not_connected = neg 18010

abbrev pub err_tr50_mqtt_recv_decode_hdr_len : ℤ
err_tr50_mqtt_recv_decode_hdr_len = neg 18011

abbrev pub err_tr50_tcp_timeout : ℤ
err_tr50_tcp_timeout = neg 18012

abbrev pub err_tr50_async_client_same_thread : ℤ
err_tr50_async_client_same_thread = neg 18021

abbrev pub err_tr50_stopping : ℤ
err_tr50_stopping = neg 18022

abbrev pub err_tr50_http_proxy_failed : ℤ
err_tr50_http_proxy_failed = neg 18026

abbrev pub err_tr50_reply_invalid : ℤ
err_tr50_reply_invalid = neg 18028

abbrev pub err_tr50_cmd_id_not_found : ℤ
err_tr50_cmd_id_not_found = neg 18029

abbrev pub err_tr50_method_unknown : ℤ
err_tr50_method_unknown = neg 18030

abbrev pub err_tr50_mailbox_suspended : ℤ
err_tr50_mailbox_suspended = neg 18031

abbrev pub err_tr50_mailbox_check_in_progress : ℤ
err_tr50_mailbox_check_in_progress = neg 18032

abbrev pub err_mqtt_msg_connack_type : ℤ
err_mqtt_msg_connack_type = neg 18201

abbrev pub err_mqtt_msg_connack_length : ℤ
err_mqtt_msg_connack_length = neg 18202

abbrev pub err_mqtt_msg_connack_unknown_return : ℤ
err_mqtt_msg_connack_unknown_return = neg 18203

abbrev pub err_mqtt_msg_connack_version : ℤ
err_mqtt_msg_connack_version = neg 18204

abbrev pub err_mqtt_msg_connack_id : ℤ
err_mqtt_msg_connack_id = neg 18205

abbrev pub err_mqtt_msg_connack_broker : ℤ
err_mqtt_msg_connack_broker = neg 18206

abbrev pub err_mqtt_msg_connack_login : ℤ
err_mqtt_msg_connack_login = neg 18207

abbrev pub err_mqtt_msg_connack_not_authorized : ℤ
err_mqtt_msg_connack_not_authorized = neg 18208

abbrev pub err_mqtt_msg_puback_length : ℤ
err_mqtt_msg_puback_length = neg 18211

abbrev pub err_mqtt_msg_puback_type : ℤ
err_mqtt_msg_puback_type = neg 18212

abbrev pub err_mqtt_msg_publish_length : ℤ
err_mqtt_msg_publish_length = neg 18213

abbrev pub err_mqtt_msg_publish_type : ℤ
err_mqtt_msg_publish_type = neg 18214

abbrev pub err_mqtt_msg_publish_decode_hdr_len : ℤ
err_mqtt_msg_publish_decode_hdr_len = neg 18215

abbrev pub err_mqtt_msg_suback_length : ℤ
err_mqtt_msg_suback_length = neg 18216

abbrev pub err_mqtt_msg_suback_type : ℤ
err_mqtt_msg_suback_type = neg 18217

abbrev pub err_mqtt_msg_suback_qos_failure : ℤ
err_mqtt_msg_suback_qos_failure = neg 18218

abbrev pub err_mqtt_msg_unsuback_length : ℤ
err_mqtt_msg_unsuback_length = neg 18219

abbrev pub err_mqtt_msg_unsuback_type : ℤ
err_mqtt_msg_unsuback_type = neg 18220

abbrev pub err_mqtt_qos_failure : ℤ
err_mqtt_qos_failure = neg 18221

abbrev pub err_mqtt_qos_stopping : ℤ
err_mqtt_qos_stopping = neg 18222

abbrev pub err_mqtt_qos_full : ℤ
err_mqtt_qos_full = neg 18223

abbrev pub err_mqtt_qos_notfound : ℤ
err_mqtt_qos_notfound = neg 18224

abbrev pub err_tr50_cmd_unknown : ℤ
err_tr50_cmd_unknown = neg 18004

abbrev pub err_tr50_json_invalid : ℤ
err_tr50_json_invalid = neg 18007

abbrev pub err_tr50_badhandle : ℤ
err_tr50_badhandle = neg 18008

abbrev pub err_tr50_already_started : ℤ
err_tr50_already_started = neg 18013

abbrev pub err_tr50_already_stopped : ℤ
err_tr50_already_stopped = neg 18014

abbrev pub err_tr50_compress_not_supported : ℤ
err_tr50_compress_not_supported = neg 18027

abbrev pub err_tr50_sock_select_failed : ℤ
err_tr50_sock_select_failed = neg 18305

abbrev pub err_tr50_sock_other : ℤ
err_tr50_sock_other = neg 18306

abbrev pub err_tr50_sock_proxy_auth_rejected : ℤ
err_tr50_sock_proxy_auth_rejected = neg 18311

abbrev pub err_tr50_sock_proxy_other : ℤ
err_tr50_sock_proxy_other = neg 18312

abbrev pub err_tr50_sock_hostnotfound : ℤ
err_tr50_sock_hostnotfound = neg 18315

abbrev pub err_tr50_sock_send_failed : ℤ
err_tr50_sock_send_failed = neg 18321

abbrev pub err_tr50_sock_recv_failed : ℤ
err_tr50_sock_recv_failed = neg 18323

abbrev pub err_tr50_sock_shutdown : ℤ
err_tr50_sock_shutdown = neg 18324

abbrev pub err_tr50_sock_proxy_auth_unsup : ℤ
err_tr50_sock_proxy_auth_unsup = neg 18313
