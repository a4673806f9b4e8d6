-- ===== src/Tr50/Api/Payload.antt =====
-- The payload of a call where the compression fails.
use libtr.Base.{ℕ, ◌≡◌, List, true, ◌<◌, length, arith, lt→leb_false}
use libtr.Base.Int.{ℤ}
use libtr.Error.{Res, ok, err}
use libtr.Tr50.Api.{api, build_payload}

-- Where a text of more than 128 bytes cannot be compressed, the payload is the text itself on the
-- topic "api", but the return code is that of the compression.
pub build_payload-deflate :
    (deflate : List ℕ → Res (List ℕ)) (raw : List ℕ) (ret : ℤ)
    → 128 < length raw
    → deflate raw ≡ err ret
    → build_payload (ok raw) deflate true ≡ ok (ret, api, raw)
unfolding build_payload
build_payload-deflate deflate raw ret long failed =
    ground (arith, failed, lt→leb_false (length raw) 128 long)
