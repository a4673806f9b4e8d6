-- ===== src/Blob/Growth.antt =====
-- What growing does to the bytes that a blob holds.
use libtr.Base.{
  ◌⊎◌, ℕ, ◌+◌, ◌-◌, ◌≤◌, ◌<◌, ◌≡◌, refl, ap, ◌∙◌, List, ◌++◌, append_assoc, some, ltb, length, drop,
  replicate, length-append, length-drop, length-replicate, Bool-cases, Option-cases, inl, inr,
  arith,
}
use libtr.Base.Int.{ℤ, pos}
use libtr.Error.{ok, err_tr50_malloc}
use libtr.Memory.{memcpy}
use libtr.Memory.Laws.{memcpy-append}
use libtr.Blob.{Blob, Realloc, new_size, blob_grow}

-- `realloc` gives a block of the size asked for that starts with the bytes of the old one.
abbrev pub Copies : Realloc → Type 0
Copies realloc =
    (block : List ℕ) (n : ℕ) (new : List ℕ)
    → length block ≤ n
    → realloc block n ≡ some new
    → (more : List ℕ) × (new ≡ block ++ more) × (length new ≡ n)

-- The blob holds `bytes`, and its fields agree with its block, which is not empty.
pub record IsBlob (blob : Blob) (bytes : List ℕ) : Type 0 where
  pub free : List ℕ
  pub block : blob.buffer ≡ bytes ++ free
  pub len_of : blob.len ≡ length bytes
  pub size_of : blob.size ≡ length blob.buffer
  pub unused_of : blob.len + blob.unused ≡ blob.size
  pub some_size : 0 < blob.size

-- What `_blob_grow` does: it makes room, or changes nothing and says so.
abbrev pub Grown : Blob → List ℕ → ℕ → ℤ × Blob → Type 0
Grown blob bytes needed (ret, blob') =
    ((ret ≡ pos 0) × IsBlob blob' bytes × (needed ≤ blob'.unused))
    ⊎ ((ret ≡ err_tr50_malloc) × (blob' ≡ blob))

large_enough :
    (blob : Blob) (needed : ℕ)
    → blob.len + blob.unused ≡ blob.size
    → blob.unused ≤ needed
    → 0 < blob.size
    → (blob.size ≤ new_size blob needed)
      × (blob.len + needed ≤ new_size blob needed)
      × (0 < new_size blob needed)
large_enough blob needed sum enough positive =
    elim (Bool-cases (ltb blob.size (needed - blob.unused))) [
      | inl far ↦
          let far' : blob.size < needed - blob.unused = ground (arith, far) in
          rw far (omega arith, omega arith, omega arith)
      | inr near ↦
          let near' : needed - blob.unused ≤ blob.size = ground (arith, near) in
          rw near (omega arith, omega arith, omega arith)
    ]

-- A larger block whose new part is cleared.
cleared-IsBlob :
    (blob : Blob) (bytes tmp more : List ℕ) (n : ℕ)
    → IsBlob blob bytes
    → blob.size ≤ n
    → 0 < n
    → tmp ≡ blob.buffer ++ more
    → length tmp ≡ n
    → (buffer : List ℕ) × (memcpy tmp blob.size (replicate (n - blob.size) 0) ≡ ok buffer)
      × IsBlob (record { buffer = buffer; size = n; len = blob.len; unused = n - blob.len }) bytes
cleared-IsBlob blob bytes tmp more n holds larger positive copied size =
    let zeros : List ℕ = replicate (n - blob.size) 0 in
    let zeros_size : length zeros ≡ n - blob.size = length-replicate {A = ℕ} (n - blob.size) 0 in
    let total : length tmp ≡ length blob.buffer + length more =
      ap length copied ∙ length-append blob.buffer more in
    let written =
      memcpy-append blob.buffer more zeros blob.size holds.size_of
        (omega (arith, zeros_size, total, holds.size_of)) in
    let buffer = (blob.buffer ++ zeros) ++ drop (length zeros) more in
    (
      buffer,
      ap (λ t. memcpy t blob.size zeros) copied ∙ written,
      record {
        free = holds.free ++ (zeros ++ drop (length zeros) more);
        block =
            append_assoc blob.buffer zeros (drop (length zeros) more)
            ∙ ap (λ t. t ++ (zeros ++ drop (length zeros) more)) holds.block
            ∙ append_assoc bytes holds.free (zeros ++ drop (length zeros) more);
        len_of = holds.len_of;
        size_of = omega (
          arith,
          length-append (blob.buffer ++ zeros) (drop (length zeros) more),
          length-append blob.buffer zeros,
          length-drop (length zeros) more,
          zeros_size,
          total,
          holds.size_of,
        );
        unused_of = omega (arith, holds.unused_of);
        some_size = positive;
      },
    )

pub blob_grow-Grown :
    (realloc : Realloc) (blob : Blob) (bytes : List ℕ) (needed : ℕ)
    → Copies realloc
    → IsBlob blob bytes
    → (out : ℤ × Blob) × (blob_grow realloc blob needed ≡ ok out) × Grown blob bytes needed out
unfolding blob_grow
blob_grow-Grown realloc blob bytes needed copies holds =
    elim (Bool-cases (ltb needed blob.unused)) [
      | inl room ↦
          let room' : needed < blob.unused = ground (arith, room) in
          ((pos 0, blob), rw (room, blob_grow) refl, inl (refl, holds, omega arith))
      | inr tight ↦
          let tight' : blob.unused ≤ needed = ground (arith, tight) in
          let n = new_size blob needed in
          let (larger, fits, positive) =
            large_enough blob needed holds.unused_of tight' holds.some_size in
          elim (Option-cases (realloc blob.buffer n)) [
            | inl refused ↦
                ((err_tr50_malloc, blob), rw (tight, refused, blob_grow) refl, inr (refl, refl))
            | inr (tmp, granted) ↦
                let (more, copied, size) =
                  copies blob.buffer n tmp (omega (arith, larger, holds.size_of)) granted in
                let (buffer, written, kept) =
                  cleared-IsBlob blob bytes tmp more n holds larger positive copied size in
                (
                  (
                    pos 0,
                    record { buffer = buffer; size = n; len = blob.len; unused = n - blob.len },
                  ),
                  rw (tight, granted, blob_grow) (rw written refl),
                  inl (refl, kept, omega (arith, fits)),
                )
          ]
    ]
