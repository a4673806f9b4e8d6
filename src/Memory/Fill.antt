-- ===== src/Memory/Fill.antt =====
-- Writes that fill a fresh block from its front: a rule for each kind, and one for their sequence.
use libtr.Base.{
  ℕ, ◌+◌, ◌/◌, ◌%◌, ◌^◌, ◌<◌, ◌≡◌, List, [], ◌∷◌, ◌++◌, append-nil, arith, length, drop,
  length-drop,
}
use mathlib.Core.Path.{subst}
use libtr.Error.{Res, ok, ◌>>=◌}
use libtr.Memory.{memcpy, swap16, short_bytes}
use libtr.Memory.Laws.{memcpy-append}

-- The call succeeds, `pre` is written, and `n` bytes are not.
abbrev pub Filled : Res (List ℕ) → List ℕ → ℕ → Type 0
Filled m pre n = (old : List ℕ) × (m ≡ ok (pre ++ old)) × (length old ≡ n)

pub fill_then {ℓ} :
    {B : Type ℓ} {m : Res (List ℕ)} (k : List ℕ → Res B) {r : Res B} (pre : List ℕ) {n : ℕ}
    → Filled m pre n
    → ((old : List ℕ) → length old ≡ n → k (pre ++ old) ≡ r)
    → (m >>= k) ≡ r
fill_then k pre (old, e, h) next = rw e (next old h)

pub Filled-bind :
    {m : Res (List ℕ)} (k : List ℕ → Res (List ℕ)) (pre : List ℕ) {n : ℕ} (pre' : List ℕ) (n' : ℕ)
    → Filled m pre n
    → ((old : List ℕ) → length old ≡ n → Filled (k (pre ++ old)) pre' n')
    → Filled (m >>= k) pre' n'
Filled-bind k pre pre' n' (old, e, h) next = rw e (next old h)

pub Filled-eq :
    {m : Res (List ℕ)} {pre pre' : List ℕ} {n : ℕ} → pre ≡ pre' → Filled m pre n → Filled m pre' n
Filled-eq {m} {n} e = subst (λ p. Filled m p n) e

-- The call succeeds with such a buffer and the offset `at`.
abbrev pub Started : Res (List ℕ × ℕ) → List ℕ → ℕ → ℕ → Type 0
Started m pre n at = (old : List ℕ) × (m ≡ ok (pre ++ old, at)) × (length old ≡ n)

pub Started-bind :
    {m : Res (List ℕ)} (k : List ℕ → Res (List ℕ × ℕ)) (pre : List ℕ) {n : ℕ} (pre' : List ℕ)
    (n' at : ℕ)
    → Filled m pre n
    → ((old : List ℕ) → length old ≡ n → Started (k (pre ++ old)) pre' n' at)
    → Started (m >>= k) pre' n' at
Started-bind k pre pre' n' at (old, e, h) next = rw e (next old h)

pub Started-ok :
    {m : Res (List ℕ)} (pre : List ℕ) {n : ℕ} (at : ℕ)
    → Filled m pre n
    → Started (m >>= λ msg. ok (msg, at)) pre n at
Started-ok pre at (old, e, h) = (old, rw e, h)

pub Started-then {ℓ} :
    {B : Type ℓ} {m : Res (List ℕ × ℕ)} (k : List ℕ × ℕ → Res B) {r : Res B} (pre : List ℕ)
    {n at : ℕ}
    → Started m pre n at
    → ((old : List ℕ) → length old ≡ n → k (pre ++ old, at) ≡ r)
    → (m >>= k) ≡ r
Started-then k pre (old, e, h) next = rw e (next old h)

pub memcpy-Filled :
    (pre old bytes : List ℕ) (at n : ℕ)
    → at ≡ length pre
    → length old ≡ n + length bytes
    → Filled (memcpy (pre ++ old) at bytes) (pre ++ bytes) n
memcpy-Filled pre old bytes at n h fits = (
  drop (length bytes) old,
  memcpy-append pre old bytes at h (omega arith),
  omega (arith, length-drop (length bytes) old),
)

pub eq_of_Filled : {m : Res (List ℕ)} (pre : List ℕ) → Filled m pre 0 → m ≡ ok pre
eq_of_Filled pre ([], e, h) = rw (append-nil) at e
eq_of_Filled pre (x ∷ old, e, h) = absurd (omega arith)

-- A number of two bytes as it stands in a message: the high byte first.
abbrev pub u16 : ℕ → List ℕ
u16 v = v / 256 ∷ v % 256 ∷ []

pub short_bytes-swap16 : (v : ℕ) → v < 2 ^ 16 → short_bytes (swap16 v) ≡ u16 v
short_bytes-swap16 v h = ground arith
