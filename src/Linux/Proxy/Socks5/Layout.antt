-- ===== src/Linux/Proxy/Socks5/Layout.antt =====
-- The bytes of the authentication of a SOCKS 5 proxy.
use mathlib.Core.Path.{ap₂}
use libtr.Base.{
  ℕ, ◌+◌, ◌-◌, ◌%◌, ◌≤◌, ◌<◌, ◌≡◌, refl, sym, ap, ◌∙◌, List, [], ◌∷◌, ◌++◌, append_assoc, Option,
  none, some, ltb, length, drop, replicate, length-append, length-replicate, length-drop, lt→ltb,
  le→ltb_false, arith, if◌then◌else◌, take_short,
}
use libtr.Base.Int.{pos, negsuc, sub_ℕ}
use libtr.Error.{ok, fault}
use libtr.Memory.Laws.{memcpy-append}
use libtr.Linux.Proxy.Socks4.{name_of}
use libtr.Linux.Proxy.Socks5.{strncpy_bytes, put_text, credentials}

-- A length with its text, as the protocol has them.
abbrev pub field : List ℕ → List ℕ
field text = length text ∷ text

abbrev zeros : ℕ → List ℕ
zeros n = replicate n 0

strncpy_bytes-short :
    (limit : ℕ) (text : List ℕ)
    → length text ≤ limit
    → strncpy_bytes limit text ≡ text ++ zeros (limit - length text)
strncpy_bytes-short limit text fits =
    ap (λ t. t ++ zeros (limit - length text)) (take_short limit text fits)

length_padded :
    (limit : ℕ) (text : List ℕ)
    → length text ≤ limit
    → length (text ++ zeros (limit - length text)) ≡ limit
length_padded limit text fits =
    let size : length (zeros (limit - length text)) ≡ limit - length text =
      length-replicate (limit - length text) 0 in
    omega (arith, size, length-append text (zeros (limit - length text)))

regroup :
    (p : List ℕ) (l : ℕ) (t z o : List ℕ)
    → ((p ++ (l ∷ [])) ++ (t ++ z)) ++ o ≡ (p ++ (l ∷ t)) ++ (z ++ o)
regroup p l t z o =
    append_assoc (p ++ (l ∷ [])) (t ++ z) o
    ∙ ap (λ x. (p ++ (l ∷ [])) ++ x) (append_assoc t z o)
    ∙ append_assoc p (l ∷ []) (t ++ (z ++ o))
    ∙ sym (append_assoc p (l ∷ t) (z ++ o))

index_short :
    (idx len : ℕ)
    → len < 128
    → (if ltb len 128 then pos (idx + len + 1) else sub_ℕ (idx + len) 255) ≡ pos (idx + len + 1)
index_short idx len short = rw (lt→ltb len 128 short) refl

negative_difference : (a b : ℕ) → a < b → sub_ℕ a b ≡ negsuc (b - a - 1)
negative_difference a b below = ground arith

-- What `put_text` writes behind a prefix of the buffer.
pub put_text-field :
    (pre old : List ℕ) (limit : ℕ) (text : Option (List ℕ))
    → length (name_of text) < 128
    → length (name_of text) ≤ limit
    → limit + 1 ≤ length old
    → (old' : List ℕ) × (put_text (pre ++ old) (length pre) limit text
        ≡ ok ((pre ++ field (name_of text)) ++ old', pos (length pre + length (name_of text) + 1)))
      × (length old' ≡ length old - (length (name_of text) + 1))
unfolding put_text
put_text-field pre old limit none short fits room =
    let same : length pre + 1 ≡ length pre + 0 + 1 = omega arith in
    (
      drop 1 old,
      rw (memcpy-append pre old (0 ∷ []) (length pre) refl (omega arith), put_text)
          (ap (λ n. ok ((pre ++ (0 ∷ [])) ++ drop 1 old, pos n)) same),
      length-drop 1 old,
    )
put_text-field pre old limit (some text) short fits room =
    let len = length text in
    let pad = zeros (limit - len) in
    let old1 = drop 1 old in
    let first = memcpy-append pre old (len % 256 ∷ []) (length pre) refl (omega arith) in
    let small : len % 256 ≡ len = omega arith in
    let padded = length_padded limit text fits in
    let second =
      memcpy-append (pre ++ (len ∷ [])) old1 (text ++ pad) (length pre + 1)
        (sym (length-append pre (len ∷ []))) (omega (arith, padded, length-drop 1 old)) in
    let written = text ++ pad in
    let old2 = drop (length written) old1 in
    (
      pad ++ old2,
      rw (first, small, strncpy_bytes-short limit text fits, second, put_text)
          (ap₂ (λ buf at. ok (buf, at)) (regroup pre len text pad old2)
            (index_short (length pre) len short)),
      omega (
        arith,
        padded,
        length-append pad old2,
        length-append text pad,
        length-drop (length written) old1,
        length-drop 1 old,
      ),
    )

-- A user and a password of fewer than 128 bytes each, empty where they are NULL: the first bytes of
-- the buffer, as many as the next index says, are the version 1, the length of the user, the
-- user, the length of the password and the password.
pub credentials_layout :
    (buf : List ℕ) (user pass : Option (List ℕ))
    → length buf ≡ 512
    → length (name_of user) < 128
    → length (name_of pass) < 128
    → (old : List ℕ) × (credentials buf user pass
        ≡ ok (
          ((1 ∷ field (name_of user)) ++ field (name_of pass)) ++ old,
          pos (3 + length (name_of user) + length (name_of pass)),
        ))
      × (length old ≡ 509 - (length (name_of user) + length (name_of pass)))
unfolding credentials
credentials_layout buf user pass size short_user short_pass =
    let start = memcpy-append [] buf (1 ∷ []) 0 refl (omega arith) in
    let (old1, wrote_user, left1) =
      put_text-field (1 ∷ []) (drop 1 buf) 255 user short_user (omega arith)
        (omega (arith, length-drop 1 buf)) in
    let pre = 1 ∷ field (name_of user) in
    let idx = length pre in
    let next : 1 + length (name_of user) + 1 ≡ idx = omega arith in
    let (old2, wrote_pass, left2) =
      put_text-field pre old1 (256 - idx) pass short_pass (omega arith)
        (omega (arith, left1, length-drop 1 buf)) in
    let end : idx + length (name_of pass) + 1 ≡ 3 + length (name_of user) + length (name_of pass) =
      omega arith in
    (
      old2,
      rw (start, wrote_user, credentials)
          (rw (next, wrote_pass) (ap (λ n. ok ((pre ++ field (name_of pass)) ++ old2, pos n)) end)),
      omega (arith, left2, left1, length-drop 1 buf),
    )

-- A user of 128 to 253 bytes: the length is read back as a negative `char`, and the next index stands
-- in front of the buffer.
pub credentials_long :
    (buf user : List ℕ) (pass : Option (List ℕ))
    → length buf ≡ 512
    → 128 ≤ length user
    → length user ≤ 253
    → credentials buf (some user) pass ≡ fault
unfolding credentials put_text
credentials_long buf user pass size long bound =
    let len = length user in
    let pad = zeros (255 - len) in
    let old = drop 1 buf in
    let old1 = drop 1 old in
    let start = memcpy-append [] buf (1 ∷ []) 0 refl (omega arith) in
    let first =
      memcpy-append (1 ∷ []) old (len % 256 ∷ []) 1 refl (omega (arith, length-drop 1 buf)) in
    let small : len % 256 ≡ len = omega arith in
    let padded = length_padded 255 user (omega arith) in
    let second =
      memcpy-append (1 ∷ len ∷ []) old1 (user ++ pad) 2 refl
        (omega (arith, padded, length-drop 1 old, length-drop 1 buf)) in
    let below = negative_difference (1 + len) 255 (omega arith) in
    rw (start, credentials, put_text)
      (rw (first, small, strncpy_bytes-short 255 user (omega arith), second)
        (rw (le→ltb_false len 128 long, below) refl))
