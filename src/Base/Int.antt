-- ===== src/Base/Int.antt =====
-- Signed integers: the C functions' return codes.
use Prim.Native.Nat.{ℕ, suc, ◌-◌, ◌+◌, ◌^◌, compare, Ordering}
use mathlib.Core.Bool.{Bool, true, false}

-- `negsuc n` is -(n + 1).
pub data ℤ : Type 0 where
  pos : ℕ → ℤ
  negsuc : ℕ → ℤ

-- -n.
abbrev pub neg : ℕ → ℤ
neg n = elim (compare n 0) [ Ordering.eq ↦ pos 0 | _ ↦ negsuc (n - 1) ]

-- `ret == 0`.
abbrev pub is_zero : ℤ → Bool
is_zero (pos n) = elim (compare n 0) [ Ordering.eq ↦ true | _ ↦ false ]
is_zero (negsuc n) = false

-- a - b, as an integer.
abbrev pub sub_ℕ : ℕ → ℕ → ℤ
sub_ℕ a b = elim (compare a b) [ Ordering.lt ↦ negsuc (b - a - 1) | _ ↦ pos (a - b) ]

-- z - k.
abbrev pub minus : ℤ → ℕ → ℤ
minus (pos n) k = sub_ℕ n k
minus (negsuc n) k = negsuc (n + k)

-- The conversion of an `int` to `size_t`.
abbrev pub to_size : ℤ → ℕ
to_size (pos n) = n
to_size (negsuc n) = 2 ^ 64 - suc n

-- `a == b`.
abbrev pub eq_int : ℤ → ℤ → Bool
eq_int (pos m) (pos n) = elim (compare m n) [ Ordering.eq ↦ true | _ ↦ false ]
eq_int (negsuc m) (negsuc n) = elim (compare m n) [ Ordering.eq ↦ true | _ ↦ false ]
eq_int _ _ = false
