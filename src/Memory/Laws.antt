-- ===== src/Memory/Laws.antt =====
-- A message is built by writes that follow one another: each fills the front of what is unwritten.
use libtr.Base.{
  ℕ, zero, suc, ◌+◌, ◌%◌, ◌^◌, ◌≤◌, ◌<◌, ◌≡◌, refl, List, [], ◌∷◌, ◌++◌, some, append_assoc, arith,
  le→leb, length, drop, get_elem?, length-append, All, ◌⊎◌, inl, inr, take-append, drop-append,
}
use libtr.Error.{ok, fault}
use libtr.Memory.{IsByte, Malloc, memcpy, memory_clone, peek, read}

pub memcpy-append :
    (pre old bytes : List ℕ) (at : ℕ)
    → at ≡ length pre
    → length bytes ≤ length old
    → memcpy (pre ++ old) at bytes ≡ ok ((pre ++ bytes) ++ drop (length bytes) old)
unfolding memcpy
memcpy-append pre old bytes at h fits = rw (
  le→leb (at + length bytes) (length (pre ++ old)) (omega (arith, length-append pre old)),
  take-append at pre old h,
  drop-append (at + length bytes) (length bytes) pre old (omega arith),
  append_assoc pre bytes (drop (length bytes) old),
)

get_elem?-append :
    (pre rest : List ℕ) (at b : ℕ) → at ≡ length pre → get_elem? (pre ++ (b ∷ rest)) at ≡ some b
get_elem?-append [] rest at b h = rw h
get_elem?-append (x ∷ pre) rest zero b h = absurd (omega arith)
get_elem?-append (x ∷ pre) rest (suc at) b h = get_elem?-append pre rest at b (omega arith)

pub peek-append :
    (pre rest : List ℕ) (at b : ℕ) → at ≡ length pre → peek (pre ++ (b ∷ rest)) at ≡ ok b
unfolding peek
peek-append pre rest at b h = rw (get_elem?-append pre rest at b h, peek)

pub read-append :
    (pre bytes rest : List ℕ) (at size : ℕ)
    → at ≡ length pre
    → size ≡ length bytes
    → read (pre ++ (bytes ++ rest)) at size ≡ ok bytes
unfolding read
read-append pre bytes rest at size h k = rw (
  le→leb (at + size) (length (pre ++ (bytes ++ rest)))
      (omega (arith, length-append pre (bytes ++ rest), length-append bytes rest)),
  drop-append at 0 pre (bytes ++ rest) (omega arith),
  take-append size bytes rest k,
)

-- A byte that is read stands inside the buffer, and has what all its bytes have.
pub peek-cases :
    (buf : List ℕ) (at : ℕ)
    → ((peek buf at ≡ fault) × (length buf ≤ at))
      ⊎ ((b : ℕ) × (peek buf at ≡ ok b) × (at < length buf) × (All IsByte buf → IsByte b))
unfolding peek
peek-cases [] at = inl (refl, omega arith)
peek-cases (x ∷ buf) zero = inr (x, refl, omega arith, λ h. h.0)
peek-cases (x ∷ buf) (suc at) = elim (peek-cases buf at) [
  | inl (e, h) ↦ inl (e, omega arith)
  | inr (b, e, h, k) ↦ inr (b, e, omega arith, λ all. k all.1)
]

pub peek-append_one :
    (pre rest : List ℕ) (at a b : ℕ)
    → at ≡ length pre
    → peek (pre ++ (a ∷ b ∷ rest)) (at + 1) ≡ ok b
peek-append_one pre rest at a b h =
    rw (append_assoc pre (a ∷ []) (b ∷ rest)) at
      (peek-append (pre ++ (a ∷ [])) rest (at + 1) b (omega (arith, length-append pre (a ∷ []))))

pub memory_clone-append :
    (malloc : Malloc) (pre bytes rest block : List ℕ) (at : ℕ)
    → at ≡ length pre
    → length bytes < 2 ^ 31
    → malloc (length bytes + 1) ≡ some block
    → memory_clone malloc (pre ++ (bytes ++ rest)) at (length bytes) ≡ ok (some bytes)
unfolding memory_clone
memory_clone-append malloc pre bytes rest block at h small e =
    let wrap : (length bytes + 1) % 2 ^ 64 ≡ length bytes + 1 = omega arith in
    rw (wrap, e, read-append pre bytes rest at (length bytes) h refl, memory_clone)
