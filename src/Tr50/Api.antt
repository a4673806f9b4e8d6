-- ===== src/Tr50/Api.antt =====
-- The identifiers and payloads of calls: tr50.api.async.c. The JSON text of a message and the
-- compression are parameters: `to_string` and `deflate` answer a text or a code.
pub mod Ids
pub mod Payload
pub mod Call
pub mod Outcome
pub mod Ownership
pub mod Dangling
pub mod Life
pub mod Reach
mod Tests
use libtr.Base.{ℕ, zero, suc, ◌+◌, List, Bool, true, false, leb, ◌==◌, if◌then◌else◌, length}
use libtr.Base.Int.{ℤ, pos}
use libtr.Error.{Res, ok, err, fault, stuck}

-- `TR50_MAX_ID`.
abbrev pub max_id : ℕ
max_id = 65536

-- `tr50_api_msg_id_next`: the new `seq_id`, which is the identifier.
unfoldable pub msg_id_next : ℕ → ℕ
msg_id_next seq_id = (if seq_id == max_id then 0 else seq_id) + 1

-- The identifier of the call number `n` behind `seq_id`.
unfoldable pub nth_id : ℕ → ℕ → ℕ
unfolding msg_id_next
nth_id seq_id zero = seq_id
nth_id seq_id (suc n) = msg_id_next (nth_id seq_id n)

-- `TR50_TOPIC_API` and `TR50_TOPIC_COMPRESS_API`.
pub data Topic : Type 0 where
  api : Topic
  apiz : Topic

-- `TR50_MIN_COMPRESSION_LEN`.
abbrev pub min_compression_len : ℕ
min_compression_len = 128

-- `_tr50_build_payload`: the return code, the topic and the payload. Where the compression failed,
-- its code stays in `ret` beside the payload that is not compressed.
unfoldable pub build_payload :
    Res (List ℕ) → (List ℕ → Res (List ℕ)) → Bool → Res (ℤ × Topic × List ℕ)
build_payload to_string deflate compress = elim to_string [
  | err ret ↦ err ret
  | fault ↦ fault
  | stuck ↦ stuck
  | ok raw ↦ elim compress [
    | false ↦ ok (pos 0, api, raw)
    | true ↦ elim (leb (length raw) min_compression_len) [
      | true ↦ ok (pos 0, api, raw)
      | false ↦ elim (deflate raw) [
        | ok small ↦ ok (pos 0, apiz, small)
        | err ret ↦ ok (ret, api, raw)
        | fault ↦ fault
        | stuck ↦ stuck
      ]
    ]
  ]
]
