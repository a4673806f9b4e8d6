-- ===== src/Blob.antt =====
-- The growing buffer of util/common/tr50.blob.c, for sizes whose double an `int` holds.
pub mod Growth
pub mod Laws
mod Tests
use libtr.Base.{
  ℕ, ◌+◌, ◌-◌, ◌*◌, List, Bool, Option, none, some, true, false, ltb, replicate, if◌then◌else◌,
}
use libtr.Base.Int.{ℤ, pos, negsuc, is_zero}
use libtr.Error.{Res, ok, ◌>>=◌, err_tr50_malloc}
use libtr.Memory.{Malloc, memcpy, read, zeroed}

-- `_BLOB`, without the two fields that its code does not use.
pub record Blob : Type 0 where
  pub buffer : List ℕ
  pub size : ℕ
  pub len : ℕ
  pub unused : ℕ

-- `realloc` of a block to a size.
abbrev pub Realloc : Type 0
Realloc = List ℕ → ℕ → Option (List ℕ)

-- `BLOB_DEFAULT_SIZE`, and the size for the length that is asked for.
abbrev pub blob_default_size : ℕ
blob_default_size = 1024

abbrev pub initial_size : ℤ → ℕ
initial_size (pos n) = if ltb 0 n then n else blob_default_size
initial_size (negsuc n) = blob_default_size

-- `_blob_create`, where the `malloc` of the record itself succeeds if `granted` says so. NULL is `none`.
unfoldable pub blob_create : Malloc → Bool → ℤ → ℤ × Option Blob
unfolding zeroed
blob_create malloc false initial_length = (err_tr50_malloc, none)
blob_create malloc true initial_length = elim (zeroed malloc (initial_size initial_length)) [
  | none ↦ (err_tr50_malloc, none)
  | some buffer ↦ (
    pos 0,
    some (record {
      buffer = buffer;
      size = initial_size initial_length;
      len = 0;
      unused = initial_size initial_length;
    }),
  )
]

-- `_blob_clear`.
unfoldable pub blob_clear : Blob → Res Blob
blob_clear blob = do
  buffer ← memcpy blob.buffer 0 (replicate blob.size 0)
  ok (record { buffer = buffer; size = blob.size; len = 0; unused = blob.size })

-- The size that `_blob_grow` asks for, where `needed` is not less than `unused`.
abbrev pub new_size : Blob → ℕ → ℕ
new_size blob needed =
    if ltb blob.size (needed - blob.unused) then needed + blob.len else blob.size * 2

-- `_blob_grow`.
unfoldable pub blob_grow : Realloc → Blob → ℕ → Res (ℤ × Blob)
blob_grow realloc blob needed =
    if ltb needed blob.unused
    then ok (pos 0, blob)
    else elim (realloc blob.buffer (new_size blob needed)) [
      | none ↦ ok (err_tr50_malloc, blob)
      | some tmp ↦ do
        buffer ← memcpy tmp blob.size (replicate (new_size blob needed - blob.size) 0)
        ok (
          pos 0,
          record {
            buffer = buffer;
            size = new_size blob needed;
            len = blob.len;
            unused = new_size blob needed - blob.len;
          },
        )
    ]

-- The bytes that are appended: those of `given`, or zeros where it is NULL.
abbrev pub appended : Option (List ℕ) → ℕ → Res (List ℕ)
appended none data_len = ok (replicate data_len 0)
appended (some given) data_len = read given 0 data_len

-- `_blob_append`.
unfoldable pub blob_append : Realloc → Blob → Option (List ℕ) → ℕ → Res (ℤ × Blob)
unfolding blob_grow
blob_append realloc blob given data_len = do
  (ret, grown) ← blob_grow realloc blob data_len
  elim (is_zero ret) [
    | false ↦ ok (ret, grown)
    | true ↦ do
      bytes ← appended given data_len
      buffer ← memcpy grown.buffer grown.len bytes
      ok (
        pos 0,
        record {
          buffer = buffer;
          size = grown.size;
          len = grown.len + data_len;
          unused = grown.unused - data_len;
        },
      )
  ]
