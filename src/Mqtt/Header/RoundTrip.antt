-- ===== src/Mqtt/Header/RoundTrip.antt =====
-- `_mqtt_decode_header_length` reads back what `_mqtt_encode_fixed_header_len` wrote, and the
-- encoding has the size that MQTT_CALC_FHEADER_LENGTH reserves for it.
use libtr.Base.{
  if◌then◌else◌, ℕ, zero, suc, ◌+◌, ◌*◌, ◌/◌, ◌%◌, ◌^◌, ◌≤◌, ◌<◌, bit_and, ◌≡◌, refl, ap, ◌∙◌, List,
  [], ◌∷◌, ◌++◌, append_assoc, arith, length, length-append, All, le→leb, lt→ltb, ltb, Bool-cases,
  inl, inr,
}
use libtr.Base.Bits.{low_seven, top_bit, set_top_bit}
use libtr.Base.Int.{pos, negsuc}
use libtr.Base.Order.{lt_wf}
use libtr.Error.{ok}
use libtr.Memory.Laws.{peek-append}
use libtr.Mqtt.Header.{
  calc_fheader_length, encode_loop, encode_fixed_header_len, group_shrinks, decode_loop,
  decode_header_length,
}
use mathlib.Core.WellFounded.{Acc}
use mathlib.Core.Logic.{dif_pos}
use native.Mathlib.Nat.{div-add-mod}
use native.Mathlib.Bridge.{le_prop}
use native.Mathlib.Decide.{dec_lt}

-- One round on a byte that ends the encoding, and on one that does not.
last_round :
    (rounds : ℕ) (pre rest : List ℕ) (at ptr_len rl decoded mult b : ℕ)
    → at ≡ length pre
    → b < 128
    → decode_loop (suc rounds) (pre ++ (b ∷ rest)) at ptr_len rl decoded mult
      ≡ ok (rl + 1, decoded + b * mult)
unfolding decode_loop
last_round rounds pre rest at ptr_len rl decoded mult b h small =
    rw (peek-append pre rest at b h) (ground (arith, low_seven b, top_bit b))

inner_round :
    (rounds : ℕ) (pre rest : List ℕ) (at ptr_len rl decoded mult g : ℕ)
    → at ≡ length pre
    → g < 128
    → rl + 1 ≤ ptr_len
    → rl + 1 < 4
    → decode_loop (suc rounds) (pre ++ ((g + 128) ∷ rest)) at ptr_len rl decoded mult
      ≡ decode_loop rounds
          (pre ++ ((g + 128) ∷ rest))
          (at + 1)
          ptr_len
          (rl + 1)
          (decoded + g * mult)
          (mult * 128)
unfolding decode_loop
inner_round rounds pre rest at ptr_len rl decoded mult g h small room few =
    let low : bit_and (g + 128) 127 ≡ g = omega (arith, low_seven (g + 128) (omega arith)) in
    let top : bit_and (g + 128) 128 ≡ 128 = omega (arith, top_bit (g + 128) (omega arith)) in
    rw (
      peek-append pre rest at (g + 128) h,
      low,
      top,
      le→leb (rl + 1) ptr_len room,
      lt→ltb (rl + 1) 4 few,
    )

-- The encoding, unrolled.
pub encode_last : (l : ℕ) (w : Acc ◌<◌ l) → l < 128 → encode_loop l w ≡ l ∷ []
unfolding encode_loop
encode_last l (Acc.intro _ smaller) h = grind arith

pub encode_more :
    (l : ℕ) (w : Acc ◌<◌ l)
    → 128 ≤ l
    → (w' : Acc ◌<◌ (l / 128)) × (encode_loop l w ≡ (l % 128 + 128) ∷ encode_loop (l / 128) w')
unfolding encode_loop
encode_more l (Acc.intro _ smaller) h =
    let more : 0 < l / 128 = omega arith in
    (
      smaller (l / 128) (group_shrinks l more),
      rw (dif_pos (dec_lt 0 (l / 128)) le_prop more, set_top_bit (l % 128) (omega arith)),
    )

encode_nonempty : (l : ℕ) (w : Acc ◌<◌ l) → 1 ≤ length (encode_loop l w)
encode_nonempty l w = elim (Bool-cases (ltb l 128)) [
  | inl small ↦ rw (encode_last l w (ground arith)) (omega arith)
  | inr large ↦ let (w', eq) = encode_more l w (ground arith) in rw eq (omega arith)
]

group_split :
    (l mult decoded : ℕ) → decoded + l % 128 * mult + l / 128 * (mult * 128) ≡ decoded + l * mult
group_split l mult decoded = omega (arith, ap (λ (t : ℕ). t * mult) (div-add-mod l 128))

-- What is still to be read of a length is `l`, in at most `suc k` groups.
decode_loop-encode :
    (k rounds : ℕ) (pre rest : List ℕ) (l : ℕ) (w : Acc ◌<◌ l) (at ptr_len rl decoded mult : ℕ)
    → l < 128 ^ suc k
    → k < rounds
    → rl + rounds ≡ 4
    → at ≡ length pre
    → rl + length (encode_loop l w) ≤ ptr_len + 1
    → decode_loop rounds (pre ++ (encode_loop l w ++ rest)) at ptr_len rl decoded mult
      ≡ ok (rl + length (encode_loop l w), decoded + l * mult)
decode_loop-encode k zero pre rest l w at ptr_len rl decoded mult hl hk e h room =
    absurd (omega arith)
decode_loop-encode zero (suc rounds) pre rest l w at ptr_len rl decoded mult hl hk e h room =
    rw (encode_last l w (omega arith))
      (last_round rounds pre rest at ptr_len rl decoded mult l h (omega arith))
decode_loop-encode (suc k) (suc rounds) pre rest l w at ptr_len rl decoded mult hl hk e h room =
    elim (Bool-cases (ltb l 128)) [
      | inl small ↦
          let small' : l < 128 = ground arith in
          rw (encode_last l w small')
            (last_round rounds pre rest at ptr_len rl decoded mult l h small')
      | inr large ↦
          let (w', eq) = encode_more l w (ground arith) in
          let full : length (encode_loop l w) ≡ suc (length (encode_loop (l / 128) w')) =
            ap length eq in
          let next = l % 128 + 128 in
          let rest' = encode_loop (l / 128) w' ++ rest in
          let ih =
            decode_loop-encode k rounds (pre ++ (next ∷ [])) rest (l / 128) w' (at + 1) ptr_len
              (rl + 1) (decoded + l % 128 * mult) (mult * 128) (omega arith) (omega arith)
              (omega arith) (omega (arith, length-append pre (next ∷ []))) (omega arith) in
          rw eq (
            inner_round rounds pre rest' at ptr_len rl decoded mult (l % 128) h (omega arith)
              (omega (arith, encode_nonempty (l / 128) w')) (omega arith)
            ∙ (rw (append_assoc pre (next ∷ []) rest') at ih)
            ∙ ground (arith, full, group_split l mult decoded))
    ]

-- The loop writes at most `suc k` bytes, and each is a byte.
pub length-encode_loop :
    (k l : ℕ) (w : Acc ◌<◌ l) → l < 128 ^ suc k → length (encode_loop l w) ≤ suc k
length-encode_loop zero l w h = rw (encode_last l w (omega arith)) (omega arith)
length-encode_loop (suc k) l w h = elim (Bool-cases (ltb l 128)) [
  | inl small ↦ rw (encode_last l w (ground arith)) (omega arith)
  | inr large ↦
      let (w', eq) = encode_more l w (ground arith) in
      rw eq (omega (arith, length-encode_loop k (l / 128) w' (omega arith)))
]

pub encode_loop-IsByte :
    (k l : ℕ) (w : Acc ◌<◌ l) → l < 128 ^ suc k → All (λ b. b < 256) (encode_loop l w)
encode_loop-IsByte zero l w h = rw (encode_last l w (omega arith)) (omega arith)
encode_loop-IsByte (suc k) l w h = elim (Bool-cases (ltb l 128)) [
  | inl small ↦ let small' : l < 128 = ground arith in rw (encode_last l w small') (omega arith)
  | inr large ↦
      let (w', eq) = encode_more l w (ground arith) in
      rw eq (omega arith, encode_loop-IsByte k (l / 128) w' (omega arith))
]

pow_pos : (k : ℕ) → 1 ≤ 128 ^ k
pow_pos zero = omega arith
pow_pos (suc k) = omega (arith, pow_pos k)

-- From `128 ^ k` on it takes one byte more.
length-encode_loop_ge : (k l : ℕ) (w : Acc ◌<◌ l) → 128 ^ k ≤ l → suc k ≤ length (encode_loop l w)
length-encode_loop_ge zero l w h = encode_nonempty l w
length-encode_loop_ge (suc k) l w h =
    let (w', eq) = encode_more l w (omega (arith, pow_pos k)) in
    rw eq (omega (arith, length-encode_loop_ge k (l / 128) w' (omega arith)))

length_bounds :
    (k l : ℕ) → 128 ^ k ≤ l → l < 128 ^ suc k → length (encode_fixed_header_len l) ≡ suc k
unfolding encode_fixed_header_len
length_bounds k l lo hi =
    omega (
      arith,
      length-encode_loop k l (lt_wf.apply l) hi,
      length-encode_loop_ge k l (lt_wf.apply l) lo,
    )

-- The encoding of each remaining length below 2^28 is read back, with the number of its bytes,
-- from any buffer, whatever stands before and behind it, if the caller gives at least the size of
-- the encoding.
pub decode_header_length-encode :
    (pre rest : List ℕ) (l ptr_len : ℕ)
    → l < 2 ^ 28
    → length (encode_fixed_header_len l) ≤ ptr_len
    → decode_header_length (pre ++ (encode_fixed_header_len l ++ rest)) (length pre) ptr_len
      ≡ ok (length (encode_fixed_header_len l), l)
unfolding encode_fixed_header_len decode_header_length
decode_header_length-encode pre rest l ptr_len h room =
    decode_loop-encode 3 4 pre rest l (lt_wf.apply l) (length pre) ptr_len 0 0 1 h (omega arith)
      refl refl (omega arith)
    ∙ ground arith

pub length_small : (l : ℕ) → l < 128 → length (encode_fixed_header_len l) ≡ 1
unfolding encode_fixed_header_len
length_small l h = rw (encode_last l (lt_wf.apply l) h)

pub calc_fheader_length_small :
    (l : ℕ) → l < 2 ^ 28 → calc_fheader_length l ≡ pos (1 + length (encode_fixed_header_len l))
unfolding calc_fheader_length
calc_fheader_length_small l h =
    ground (arith, length_small l, length_bounds 1 l, length_bounds 2 l, length_bounds 3 l)

pub calc_fheader_length_large : (l : ℕ) → 2 ^ 28 ≤ l → calc_fheader_length l ≡ negsuc 0
unfolding calc_fheader_length
calc_fheader_length_large l h = ground arith

-- MQTT_CALC_FHEADER_LENGTH is one more than the size of the encoding for lengths below 2^28, and
-- -1 from there on.
pub calc_fheader_length-encode :
    (l : ℕ)
    → calc_fheader_length l
      ≡ (if ltb l (2 ^ 28) then pos (1 + length (encode_fixed_header_len l)) else negsuc 0)
calc_fheader_length-encode l = elim (Bool-cases (ltb l (2 ^ 28))) [
  | inl small ↦ rw small (calc_fheader_length_small l (ground (arith, small)))
  | inr large ↦ rw large (calc_fheader_length_large l (ground (arith, large)))
]
