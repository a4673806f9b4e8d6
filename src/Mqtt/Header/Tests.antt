-- ===== src/Mqtt/Header/Tests.antt =====
-- The encoding of a length on concrete values.
use libtr.Base.{
  ltb, if◌then◌else◌, ◌<◌, ◌≤◌, ◌+◌, ◌^◌, [], ◌∷◌, ◌++◌, ◌≡◌, ◌≢◌, refl, arith, length, All,
}
use libtr.Base.Order.{lt_wf}
use libtr.Base.Int.{pos, negsuc}
use libtr.Error.{ok, fault, stuck}
use libtr.Memory.{IsByte, peek}
use libtr.Mqtt.Header.{
  calc_fheader_length, encode_loop, decode_loop, encode_fixed_header_len, decode_header_length,
}
use libtr.Mqtt.Header.RoundTrip.{decode_header_length-encode, calc_fheader_length-encode}
use libtr.Mqtt.Header.Bounds.{
  decode_header_length_bounds, decode_header_length-ne-stuck, decode_header_length_over_read,
}

encode_321 : encode_fixed_header_len 321 ≡ 0xc1 ∷ 0x02 ∷ []
unfolding encode_fixed_header_len encode_loop lt_wf
encode_321 = refl

decode_321 : decode_header_length (0x30 ∷ 0xc1 ∷ 0x02 ∷ []) 1 2 ≡ ok (2, 321)
unfolding decode_header_length decode_loop peek
decode_321 = refl

size_321 : length (encode_fixed_header_len 321) ≤ 2
size_321 = rw encode_321 (omega arith)

decode_header_length-encode_example :
    decode_header_length ((0x30 ∷ []) ++ (encode_fixed_header_len 321 ++ (0x07 ∷ []))) 1 2
    ≡ ok (length (encode_fixed_header_len 321), 321)
decode_header_length-encode_example =
    decode_header_length-encode (0x30 ∷ []) (0x07 ∷ []) 321 2 (omega arith) size_321

calc_fheader_length-encode_example :
    calc_fheader_length 321
    ≡ (if ltb 321 (2 ^ 28) then pos (1 + length (encode_fixed_header_len 321)) else negsuc 0)
calc_fheader_length-encode_example = calc_fheader_length-encode 321

bytes_321 : All IsByte (0x30 ∷ 0xc1 ∷ 0x02 ∷ [])
bytes_321 = ground arith

decode_header_length_bounds_example : (1 ≤ 2) × (2 ≤ 4) × (321 < 128 ^ 2) × (1 + 2 ≤ 3)
decode_header_length_bounds_example =
    decode_header_length_bounds (0x30 ∷ 0xc1 ∷ 0x02 ∷ []) 1 2 2 321 bytes_321 decode_321

decode_header_length-ne-stuck_example :
    decode_header_length (0x30 ∷ 0xff ∷ 0xff ∷ 0xff ∷ 0xff ∷ []) 1 4 ≢ stuck
decode_header_length-ne-stuck_example =
    decode_header_length-ne-stuck (0x30 ∷ 0xff ∷ 0xff ∷ 0xff ∷ 0xff ∷ []) 1 4

decode_header_length_over_read_example :
    decode_header_length ((0x30 ∷ []) ++ (0x81 ∷ 0x82 ∷ [])) 1 2 ≡ fault
decode_header_length_over_read_example =
    decode_header_length_over_read (0x30 ∷ []) (0x81 ∷ 0x82 ∷ []) (ground arith) (omega arith)
