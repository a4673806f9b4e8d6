-- ===== src/Blob/Laws.antt =====
-- A blob against the list of the bytes that were appended to it.
use libtr.Base.{
  ◌⊎◌, ℕ, ◌+◌, ◌-◌, ◌<◌, ◌≡◌, refl, sym, ap, List, [], ◌++◌, some, true, ltb, length, drop,
  replicate, length-append, length-drop, length-replicate, Bool-cases, inl, inr, le→leb, arith,
  take-all,
}
use libtr.Base.Int.{ℤ, pos, negsuc}
use libtr.Error.{ok, err_tr50_malloc}
use libtr.Memory.{read, Malloc, zeroed}
use libtr.Memory.Laws.{memcpy-append}
use libtr.Blob.{Blob, Realloc, initial_size, blob_create, blob_clear, blob_grow, blob_append}
use libtr.Blob.Growth.{Copies, IsBlob, Grown, blob_grow-Grown}

read-all : (bytes : List ℕ) → read bytes 0 (length bytes) ≡ ok bytes
unfolding read
read-all bytes =
    rw (le→leb (0 + length bytes) (length bytes) (omega arith)) (ap ok (take-all bytes))

-- The outcome of `_blob_append` of a text: 0 and the text behind the bytes, or ERR_TR50_MALLOC and
-- the blob as it was.
abbrev pub Appended : Realloc → Blob → List ℕ → List ℕ → Type 0
Appended realloc blob bytes text =
    (blob' : Blob) × (((blob_append realloc blob (some text) (length text) ≡ ok (pos 0, blob'))
        × IsBlob blob' (bytes ++ text))
      ⊎ ((blob_append realloc blob (some text) (length text) ≡ ok (err_tr50_malloc, blob'))
          × (blob' ≡ blob)))

-- The end of `_blob_append`, behind the call that makes room.
append_step :
    (realloc : Realloc) (blob : Blob) (bytes text : List ℕ) (ret : ℤ) (grown : Blob)
    → blob_grow realloc blob (length text) ≡ ok (ret, grown)
    → Grown blob bytes (length text) (ret, grown)
    → Appended realloc blob bytes text
unfolding blob_append
append_step realloc blob bytes text ret grown run (inr (code, same)) =
    (grown, inr (rw (run, code, blob_append) refl, same))
append_step realloc blob bytes text ret grown run (inl (code, kept, room)) =
    let written = memcpy-append bytes kept.free text grown.len kept.len_of (
      omega (
        arith,
        room,
        kept.len_of,
        kept.size_of,
        kept.unused_of,
        ap length kept.block,
        length-append bytes kept.free,
      )) in
    let buffer = (bytes ++ text) ++ drop (length text) kept.free in
    let blob' : Blob = record {
      buffer = buffer;
      size = grown.size;
      len = grown.len + length text;
      unused = grown.unused - length text;
    } in
    (
      blob',
      inl (
        rw (run, code, blob_append) (rw (read-all text) (rw (kept.block, written) refl)),
        record {
          free = drop (length text) kept.free;
          block = refl;
          len_of = omega (arith, kept.len_of, length-append bytes text);
          size_of = omega (
            arith,
            kept.size_of,
            ap length kept.block,
            length-append bytes kept.free,
            length-append (bytes ++ text) (drop (length text) kept.free),
            length-append bytes text,
            length-drop (length text) kept.free,
            kept.len_of,
            kept.unused_of,
            room,
          );
          unused_of = omega (arith, kept.unused_of, room);
          some_size = kept.some_size;
        },
      ),
    )

-- A blob that holds `bytes`, and a `realloc` that copies: `_blob_append` of a text returns 0, and the
-- blob holds the bytes with the text behind them, or it returns ERR_TR50_MALLOC, and the
-- blob is as it was. The block never has too little room.
pub blob_append-IsBlob :
    (realloc : Realloc) (blob : Blob) (bytes text : List ℕ)
    → Copies realloc
    → IsBlob blob bytes
    → Appended realloc blob bytes text
blob_append-IsBlob realloc blob bytes text copies holds =
    let ((ret, grown), run, outcome) =
      blob_grow-Grown realloc blob bytes (length text) copies holds in
    append_step realloc blob bytes text ret grown run outcome

initial_size_positive : (initial_length : ℤ) → 0 < initial_size initial_length
initial_size_positive (pos n) = elim (Bool-cases (ltb 0 n)) [
  | inl given ↦ let positive : 0 < n = ground (arith, given) in rw given positive
  | inr zero_given ↦ rw zero_given (omega arith)
]
initial_size_positive (negsuc n) = omega arith

-- Where both blocks are there, a blob is created that holds nothing, whatever length was asked for.
pub blob_create-IsBlob :
    (malloc : Malloc) (initial_length : ℤ) (block : List ℕ)
    → malloc (initial_size initial_length) ≡ some block
    → (blob : Blob) × (blob_create malloc true initial_length ≡ (pos 0, some blob)) × IsBlob blob []
unfolding blob_create zeroed
blob_create-IsBlob malloc initial_length block granted =
    let n = initial_size initial_length in
    let zeros : List ℕ = replicate n 0 in
    (
      record { buffer = zeros; size = n; len = 0; unused = n },
      rw (granted, blob_create, zeroed) refl,
      record {
        free = zeros;
        block = refl;
        len_of = refl;
        size_of = sym (length-replicate {A = ℕ} n 0);
        unused_of = omega arith;
        some_size = initial_size_positive initial_length;
      },
    )

-- `_blob_clear` leaves a blob that holds nothing.
pub blob_clear-IsBlob :
    (blob : Blob) (bytes : List ℕ)
    → IsBlob blob bytes
    → (blob' : Blob) × (blob_clear blob ≡ ok blob') × IsBlob blob' []
unfolding blob_clear
blob_clear-IsBlob blob bytes holds =
    let zeros : List ℕ = replicate blob.size 0 in
    let zeros_size : length zeros ≡ blob.size = length-replicate {A = ℕ} blob.size 0 in
    let written =
      memcpy-append [] blob.buffer zeros 0 refl (omega (arith, zeros_size, holds.size_of)) in
    let buffer = zeros ++ drop (length zeros) blob.buffer in
    (
      record { buffer = buffer; size = blob.size; len = 0; unused = blob.size },
      rw (written, blob_clear) refl,
      record {
        free = buffer;
        block = refl;
        len_of = refl;
        size_of = omega (
          arith,
          length-append zeros (drop (length zeros) blob.buffer),
          length-drop (length zeros) blob.buffer,
          zeros_size,
          holds.size_of,
        );
        unused_of = omega arith;
        some_size = holds.some_size;
      },
    )
