-- ===== src/Linux/Proxy/Base64.antt =====
-- `base64_encode` of util/linux/linux.tcp_proxy.c, for lengths of at least 0, as those of texts are.
-- The input is the block from `in` to its end. A read behind it and a write behind the block of the
-- output are faults.
use libtr.Base.{
  lt→ltb, ◌^◌, ◌<◌, ℕ, zero, suc, ◌+◌, ◌-◌, ◌*◌, ◌/◌, ◌%◌, ◌≤◌, ◌<◌, ◌≡◌, refl, List, [], ◌∷◌, ◌++◌,
  Option, none, some, true, false, leb, ltb, ◌==◌, length, length-append, if◌then◌else◌, Bool-cases,
  inl, inr, le→ltb_false, arith,
}
use libtr.Error.{Res, ok, fault, ◌>>=◌}
use libtr.Memory.{Malloc}

-- `g_base64_charset[i]`.
abbrev pub charset : ℕ → ℕ
charset i =
    if ltb i 26
    then 65 + i
    else if ltb i 52
    then 71 + i
    else if ltb i 62
    then i - 4
    else if i == 62
    then 43
    else 47

-- The four characters of three bytes.
abbrev pub quadruple : ℕ → ℕ → ℕ → List ℕ
quadruple a b c =
    charset (a / 4)
    ∷ charset (a % 4 * 16 + b / 16)
    ∷ charset (b % 16 * 4 + c / 64)
    ∷ charset (c % 64)
    ∷ []

-- The characters of the one or two bytes that are left, with `pad_char`.
abbrev pub padded1 : ℕ → List ℕ
padded1 a = charset (a / 4) ∷ charset (a % 4 * 16) ∷ 61 ∷ 61 ∷ []

abbrev pub padded2 : ℕ → ℕ → List ℕ
padded2 a b = charset (a / 4) ∷ charset (a % 4 * 16 + b / 16) ∷ charset (b % 16 * 4) ∷ 61 ∷ []

-- The characters are written behind `tmp`, and a terminator behind them.
abbrev pub finished : ℕ → List ℕ → Res (List ℕ)
finished outlen tmp = if ltb (length tmp) outlen then ok tmp else fault

-- The loop and what stands behind it: `inlen` bytes are to be read, and `tmp` was written into the
-- block of `outlen` bytes.
unfoldable pub encode_from : ℕ → ℕ → List ℕ → List ℕ → Res (List ℕ)
encode_from outlen zero block tmp = finished outlen tmp
encode_from outlen (suc zero) [] tmp = fault
encode_from outlen (suc zero) (a ∷ block) tmp = finished outlen (tmp ++ padded1 a)
encode_from outlen (suc (suc zero)) (a ∷ b ∷ block) tmp = finished outlen (tmp ++ padded2 a b)
encode_from outlen (suc (suc zero)) _ tmp = fault
encode_from outlen (suc (suc (suc inlen))) (a ∷ b ∷ c ∷ block) tmp =
    elim (leb (length tmp + 4) outlen) [
      | true ↦ encode_from outlen inlen block (tmp ++ quadruple a b c)
      | false ↦ fault
    ]
encode_from outlen (suc (suc (suc inlen))) _ tmp = fault

-- The size that the function computes for `inlen` bytes.
abbrev pub base64_sizeof : ℕ → ℕ
base64_sizeof inlen = inlen * 4 / 3 + (4 - inlen * 4 / 3 % 4)

-- The text, or `none` for the code -1. The product `inlen * 4` is an `int`, and a fault where it
-- overflows. The variable `inlen` holds the size of the output when the loop starts.
unfoldable pub base64_encode : Malloc → List ℕ → ℕ → Res (Option (List ℕ))
unfolding encode_from
base64_encode malloc block inlen = elim (ltb (inlen * 4) (2 ^ 31)) [
  | false ↦ fault
  | true ↦ elim (malloc (base64_sizeof inlen + 1)) [
    | none ↦ ok none
    | some out ↦ do
      text ← encode_from (base64_sizeof inlen + 1) (base64_sizeof inlen) block []
      ok (some text)
  ]
]

finished-full : (outlen : ℕ) (tmp : List ℕ) → outlen ≤ length tmp → finished outlen tmp ≡ fault
finished-full outlen tmp full = rw (le→ltb_false (length tmp) outlen full, finished) refl

-- A block that has no more room than bytes are to be read is left.
encode_from-full :
    (outlen inlen : ℕ) (block tmp : List ℕ)
    → outlen ≤ length tmp + inlen
    → encode_from outlen inlen block tmp ≡ fault
unfolding encode_from
encode_from-full outlen zero block tmp full = finished-full outlen tmp (omega arith)
encode_from-full outlen (suc zero) [] tmp full = refl
encode_from-full outlen (suc zero) (a ∷ block) tmp full =
    finished-full outlen (tmp ++ padded1 a) (omega (arith, length-append tmp (padded1 a)))
encode_from-full outlen (suc (suc zero)) [] tmp full = refl
encode_from-full outlen (suc (suc zero)) (a ∷ []) tmp full = refl
encode_from-full outlen (suc (suc zero)) (a ∷ b ∷ block) tmp full =
    finished-full outlen (tmp ++ padded2 a b) (omega (arith, length-append tmp (padded2 a b)))
encode_from-full outlen (suc (suc (suc inlen))) [] tmp full = refl
encode_from-full outlen (suc (suc (suc inlen))) (a ∷ []) tmp full = refl
encode_from-full outlen (suc (suc (suc inlen))) (a ∷ b ∷ []) tmp full = refl
encode_from-full outlen (suc (suc (suc inlen))) (a ∷ b ∷ c ∷ block) tmp full =
    elim (Bool-cases (leb (length tmp + 4) outlen)) [
      | inr over ↦ rw (over, encode_from) refl
      | inl fits ↦
          rw (fits, encode_from)
            (encode_from-full outlen inlen block (tmp ++ quadruple a b c)
              (omega (arith, length-append tmp (quadruple a b c))))
    ]

-- A block of one byte more than is to be read.
encode_from-first :
    (outlen inlen : ℕ) (block : List ℕ)
    → 0 < inlen
    → outlen ≤ inlen + 1
    → encode_from outlen inlen block [] ≡ fault
unfolding encode_from
encode_from-first outlen zero block some_left size = absurd (omega arith)
encode_from-first outlen (suc zero) [] some_left size = refl
encode_from-first outlen (suc zero) (a ∷ block) some_left size =
    finished-full outlen (padded1 a) (omega arith)
encode_from-first outlen (suc (suc zero)) [] some_left size = refl
encode_from-first outlen (suc (suc zero)) (a ∷ []) some_left size = refl
encode_from-first outlen (suc (suc zero)) (a ∷ b ∷ block) some_left size =
    finished-full outlen (padded2 a b) (omega arith)
encode_from-first outlen (suc (suc (suc inlen))) [] some_left size = refl
encode_from-first outlen (suc (suc (suc inlen))) (a ∷ []) some_left size = refl
encode_from-first outlen (suc (suc (suc inlen))) (a ∷ b ∷ []) some_left size = refl
encode_from-first outlen (suc (suc (suc inlen))) (a ∷ b ∷ c ∷ block) some_left size =
    elim (Bool-cases (leb 4 outlen)) [
      | inr over ↦ rw (over, encode_from) refl
      | inl fits ↦
          rw (fits, encode_from)
            (encode_from-full outlen inlen block (quadruple a b c) (omega arith))
    ]

-- The number of bytes to read is lost: for each length of at least 0 whose product with 4 fits into an
-- `int`, and each input, `base64_encode` reads behind its input or writes behind its output where
-- `malloc` succeeds.
pub base64_encode-overruns :
    (malloc : Malloc) (block : List ℕ) (inlen : ℕ) (out : List ℕ)
    → inlen * 4 < 2 ^ 31
    → malloc (base64_sizeof inlen + 1) ≡ some out
    → base64_encode malloc block inlen ≡ fault
unfolding base64_encode
base64_encode-overruns malloc block inlen out holds granted =
    rw (lt→ltb (inlen * 4) (2 ^ 31) holds, granted, base64_encode)
      (rw
        (encode_from-first (base64_sizeof inlen + 1) (base64_sizeof inlen) block (omega arith)
          (omega arith))
        refl)
