-- ===== src/Mqtt/Header/Bounds.antt =====
-- What `_mqtt_decode_header_length` returns and reads on any buffer.
use libtr.Base.{
  ℕ, zero, suc, ◌+◌, ◌*◌, ◌^◌, ◌≤◌, ◌<◌, bit_and, ◌≡◌, refl, ◌≢◌, inl, inr, List, [], ◌∷◌, arith,
  length, length-append, All, le→leb, lt→ltb, append-nil, append_assoc, ◌++◌, ◌∙◌,
}
use libtr.Base.Bits.{low_seven, top_bit}
use native.Mathlib.Numerals.{towards_suc}
use libtr.Error.{ok, fault, stuck}
use libtr.Memory.{IsByte}
use libtr.Memory.Laws.{peek-cases, peek-append}
use libtr.Mqtt.Header.{decode_loop, decode_header_length}

pow_step : (rl mult : ℕ) → mult ≡ 128 ^ rl → mult * 128 ≡ 128 ^ (rl + 1)
pow_step rl mult h = simp towards_suc (omega arith)

group_fits : (b decoded mult : ℕ) → b < 128 → decoded < mult → decoded + b * mult < mult * 128
group_fits b decoded mult h k = grind arith

-- A result of the loop that has made `rl` rounds.
abbrev Fits : List ℕ → ℕ → ℕ → ℕ × ℕ → Type 0
Fits buf at rl (n, len) = (rl < n) × (n ≤ 4) × (len < 128 ^ n) × (at + n ≤ length buf + rl)

decode_loop_bounds :
    (rounds : ℕ) (buf : List ℕ) (at ptr_len rl decoded mult : ℕ) (n len : ℕ)
    → All IsByte buf
    → rl + rounds ≡ 4
    → mult ≡ 128 ^ rl
    → decoded < mult
    → decode_loop rounds buf at ptr_len rl decoded mult ≡ ok (n, len)
    → Fits buf at rl (n, len)
unfolding decode_loop
decode_loop_bounds zero buf at ptr_len rl decoded mult n len all e p lt r = cc
decode_loop_bounds (suc rounds) buf at ptr_len rl decoded mult n len all e p lt r =
    elim (peek-cases buf at) [
      | inl (bad, _) ↦ absurd (cc)
      | inr (b, good, room, byte) ↦
          let group : bit_and b 127 < 128 = omega (arith, low_seven b (byte all)) in
          let fits = group_fits (bit_and b 127) decoded mult group lt in
          let power = pow_step rl mult p in
          ground (
            arith,
            good,
            fits,
            power,
            decode_loop_bounds rounds buf (at + 1) ptr_len (rl + 1) (decoded + bit_and b 127 * mult)
                (mult * 128) n len all (omega arith) power fits,
          )
    ]

-- Where the buffer holds bytes, a decoded length comes from one to four of them, which stand
-- inside the buffer, and is below 128 to the power of their number.
pub decode_header_length_bounds :
    (buf : List ℕ) (at ptr_len n len : ℕ)
    → All IsByte buf
    → decode_header_length buf at ptr_len ≡ ok (n, len)
    → (1 ≤ n) × (n ≤ 4) × (len < 128 ^ n) × (at + n ≤ length buf)
unfolding decode_header_length
decode_header_length_bounds buf at ptr_len n len all e =
    let (lo, hi, fits, room) =
      decode_loop_bounds 4 buf at ptr_len 0 0 1 n len all refl refl (omega arith) e in
    (lo, hi, fits, omega arith)

decode_loop-ne-stuck :
    (rounds : ℕ) (buf : List ℕ) (at ptr_len rl decoded mult : ℕ)
    → rl + suc rounds ≡ 4
    → decode_loop (suc rounds) buf at ptr_len rl decoded mult ≢ stuck
unfolding decode_loop
decode_loop-ne-stuck zero buf at ptr_len rl decoded mult e = elim (peek-cases buf at) [
  | inl (bad, _) ↦ ground (arith, bad)
  | inr (b, good, _, _) ↦ ground (arith, good)
]
decode_loop-ne-stuck (suc rounds) buf at ptr_len rl decoded mult e = elim (peek-cases buf at) [
  | inl (bad, _) ↦ ground (arith, bad)
  | inr (b, good, _, _) ↦ ground (
    arith,
    good,
    decode_loop-ne-stuck rounds buf (at + 1) ptr_len (rl + 1) (decoded + bit_and b 127 * mult)
        (mult * 128),
  )
]

-- Four rounds are enough fuel on every buffer, from every place and with every length given.
pub decode_header_length-ne-stuck :
    (buf : List ℕ) (at ptr_len : ℕ) → decode_header_length buf at ptr_len ≢ stuck
unfolding decode_header_length
decode_header_length-ne-stuck buf at ptr_len = decode_loop-ne-stuck 3 buf at ptr_len 0 0 1 refl

abbrev HasTopBit : ℕ → Type 0
HasTopBit b = (128 ≤ b) × (b < 256)

-- One round on a byte with the top bit, while the caller's length allows another.
top_round :
    (rounds : ℕ) (pre rest : List ℕ) (at ptr_len rl decoded mult b : ℕ)
    → at ≡ length pre
    → HasTopBit b
    → rl + 1 ≤ ptr_len
    → rl + 1 < 4
    → decode_loop (suc rounds) (pre ++ (b ∷ rest)) at ptr_len rl decoded mult
      ≡ decode_loop rounds
          (pre ++ (b ∷ rest))
          (at + 1)
          ptr_len
          (rl + 1)
          (decoded + bit_and b 127 * mult)
          (mult * 128)
unfolding decode_loop
top_round rounds pre rest at ptr_len rl decoded mult b h (lo, hi) room few =
    let top : bit_and b 128 ≡ 128 = omega (arith, top_bit b hi) in
    rw (peek-append pre rest at b h, top, le→leb (rl + 1) ptr_len room, lt→ltb (rl + 1) 4 few)

past_end :
    (rounds : ℕ) (pre : List ℕ) (at ptr_len rl decoded mult : ℕ)
    → at ≡ length pre
    → decode_loop (suc rounds) pre at ptr_len rl decoded mult ≡ fault
unfolding decode_loop
past_end rounds pre at ptr_len rl decoded mult h = elim (peek-cases pre at) [
  | inl (bad, _) ↦ rw bad
  | inr (b, good, room, _) ↦ absurd (omega arith)
]

run_off :
    (rounds : ℕ) (pre bytes : List ℕ) (at ptr_len rl decoded mult : ℕ)
    → All HasTopBit bytes
    → at ≡ length pre
    → rl + length bytes ≤ ptr_len
    → rl + length bytes < 4
    → rl + suc rounds ≡ 4
    → decode_loop (suc rounds) (pre ++ bytes) at ptr_len rl decoded mult ≡ fault
run_off rounds pre [] at ptr_len rl decoded mult all h room few e =
    rw append-nil (past_end rounds pre at ptr_len rl decoded mult h)
run_off zero pre (b ∷ bytes) at ptr_len rl decoded mult all h room few e = absurd (omega arith)
run_off (suc rounds) pre (b ∷ bytes) at ptr_len rl decoded mult (top, all) h room few e =
    top_round (suc rounds) pre bytes at ptr_len rl decoded mult b h top (omega arith) (omega arith)
    ∙ (rw (append_assoc pre (b ∷ []) bytes) at (
        run_off rounds (pre ++ (b ∷ [])) bytes (at + 1) ptr_len (rl + 1)
          (decoded + bit_and b 127 * mult) (mult * 128) all
          (omega (arith, length-append pre (b ∷ []))) (omega arith) (omega arith) (omega arith)))

-- The loop's test is `rl_length <= ptr_len`: where the caller passes the number of bytes that
-- stand in the buffer from `ptr` on, fewer than four of them, all with the top bit set, the loop
-- reads the byte behind the last one.
pub decode_header_length_over_read :
    (pre bytes : List ℕ)
    → All HasTopBit bytes
    → length bytes < 4
    → decode_header_length (pre ++ bytes) (length pre) (length bytes) ≡ fault
unfolding decode_header_length
decode_header_length_over_read pre bytes all few =
    run_off 3 pre bytes (length pre) (length bytes) 0 0 1 all refl (omega arith) (omega arith) refl
