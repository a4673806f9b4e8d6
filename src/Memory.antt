-- ===== src/Memory.antt =====
-- Blocks of memory: util/linux/linux.memory.c over the C library's `malloc` and `memcpy`, and
-- `swap16` of include/tr50/util/platform.h on a little-endian host.
-- A block is the list of its bytes, and a pointer into it is an offset.
pub mod Laws
pub mod Fill
pub mod Sample
use libtr.Base.{
  ℕ, suc, ◌+◌, ◌-◌, ◌*◌, ◌/◌, ◌%◌, ◌^◌, ◌<◌, ◌≡◌, Option, none, some, List, [], ◌∷◌, ◌++◌, leb,
  if◌then◌else◌, length, take, drop, replicate, get_elem?,
}
use libtr.Error.{Res, ok, fault}

-- A `char` is read as the number of its eight bits.
abbrev pub IsByte : ℕ → Type 0
IsByte b = b < 256

-- The C library's `malloc`: `none` is NULL, and what a fresh block holds is unknown.
abbrev pub Malloc : Type 0
Malloc = ℕ → Option (List ℕ)

-- A block that `malloc` returns has the size that was asked for.
abbrev pub GivesSize : Malloc → Type 0
GivesSize malloc = (n : ℕ) (block : List ℕ) → malloc n ≡ some block → length block ≡ n

-- `memcpy(buf + at, bytes, length bytes)`.
unfoldable pub memcpy : List ℕ → ℕ → List ℕ → Res (List ℕ)
memcpy buf at bytes =
    if leb (at + length bytes) (length buf)
    then ok (take at buf ++ (bytes ++ drop (at + length bytes) buf))
    else fault

-- `*(buf + at)`.
unfoldable pub peek : List ℕ → ℕ → Res ℕ
peek buf at = elim (get_elem? buf at) [ none ↦ fault | some b ↦ ok b ]

-- The `size` bytes from `buf + at` on.
unfoldable pub read : List ℕ → ℕ → ℕ → Res (List ℕ)
read buf at size = if leb (at + size) (length buf) then ok (take size (drop at buf)) else fault

-- `malloc` followed by `memset(block, 0, n)`.
unfoldable pub zeroed : Malloc → Malloc
zeroed malloc n = elim (malloc n) [ none ↦ none | some block ↦ some (replicate n 0) ]

-- `_memory_clone_ex`, for a block whose last byte, the terminator, is not shown.
unfoldable pub memory_clone : Malloc → List ℕ → ℕ → ℕ → Res (Option (List ℕ))
memory_clone malloc buf at size = elim (malloc ((size + 1) % 2 ^ 64)) [
  | none ↦ ok none
  | some block ↦ elim (read buf at size) [ ok bytes ↦ ok (some bytes) | _ ↦ fault ]
]

abbrev pub swap16 : ℕ → ℕ
swap16 n = n % 256 * 256 + n / 256 % 256

-- The two bytes of an `unsigned short` in memory, lowest first.
abbrev pub short_bytes : ℕ → List ℕ
short_bytes v = v % 256 ∷ v / 256 % 256 ∷ []

-- The `unsigned short` that two bytes in memory stand for.
abbrev pub short_of : ℕ → ℕ → ℕ
short_of low high = low + high * 256
