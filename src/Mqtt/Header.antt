-- ===== src/Mqtt/Header.antt =====
-- The remaining length of an MQTT fixed header: mqtt/mqtt.msg.c and MQTT_CALC_FHEADER_LENGTH of
-- include/tr50/mqtt/mqtt.h. The bytes of a `char` buffer are numbers below 256.
pub mod RoundTrip
pub mod Bounds
mod Tests
use libtr.Base.{
  ℕ, zero, suc, ◌+◌, ◌*◌, ◌/◌, ◌%◌, ◌≤◌, ◌<◌, bit_and, bit_or, List, [], ◌∷◌, not, ◌&&◌, arith, leb,
  ltb, ◌==◌, if◌then◌else◌,
}
use libtr.Base.Int.{ℤ, pos, negsuc, neg}
use libtr.Base.Order.{lt_wf}
use libtr.Error.{Res, ok, err, stuck, ◌>>=◌}
use libtr.Memory.{peek}
use mathlib.Core.Logic.{dite}
use mathlib.Core.WellFounded.{Acc}
use native.Mathlib.Decide.{dec_lt}

-- MQTT_CALC_FHEADER_LENGTH: the size of the fixed header, its first byte included.
unfoldable pub calc_fheader_length : ℕ → ℤ
calc_fheader_length len =
    if leb len 127
    then pos 2
    else if leb len 16383
    then pos 3
    else if leb len 2097151
    then pos 4
    else if leb len 268435455
    then pos 5
    else negsuc 0

group_shrinks : (l : ℕ) → 0 < l / 128 → l / 128 < l
group_shrinks l more = omega arith

-- The `do` loop of `_mqtt_encode_fixed_header_len`: the bytes that it writes from `ptr` on.
unfoldable pub encode_loop : (l : ℕ) → Acc ◌<◌ l → List ℕ
unfolding group_shrinks dec_lt
encode_loop l (Acc.intro _ smaller) =
    dite (dec_lt 0 (l / 128))
      (λ more.
        bit_or (l % 128) 0x80 ∷ encode_loop (l / 128) (smaller (l / 128) (group_shrinks l more)))
      (λ _. l % 128 ∷ [])

unfoldable pub encode_fixed_header_len : ℕ → List ℕ
encode_fixed_header_len l = encode_loop l (lt_wf.apply l)

-- The `do` loop of `_mqtt_decode_header_length` with `ptr` at the offset `at`, after `rl_length`
-- rounds. It makes four rounds at most, which is the fuel that it is given.
unfoldable pub decode_loop : ℕ → List ℕ → ℕ → ℕ → ℕ → ℕ → ℕ → Res (ℕ × ℕ)
decode_loop zero buf at ptr_len rl_length decoded_len multiplier = stuck
decode_loop (suc rounds) buf at ptr_len rl_length decoded_len multiplier = do
  d ← peek buf at
  let rl_length' = rl_length + 1
  let decoded_len' = decoded_len + bit_and d 127 * multiplier
  let next = decode_loop rounds buf (at + 1) ptr_len rl_length' decoded_len' (multiplier * 128)
  let more = not (bit_and d 128 == 0)
  if more && (leb rl_length' ptr_len && ltb rl_length' 4)
      then next
      else if more
      then err (neg 1)
      else ok (rl_length', decoded_len')

-- The size of the encoding and the length that it stands for.
unfoldable pub decode_header_length : List ℕ → ℕ → ℕ → Res (ℕ × ℕ)
decode_header_length buf at ptr_len = decode_loop 4 buf at ptr_len 0 0 1
