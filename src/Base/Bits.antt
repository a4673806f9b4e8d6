-- ===== src/Base/Bits.antt =====
-- Masks on one byte as arithmetic, each a table that is checked by evaluation.
use Prim.Native.Nat.{ℕ, zero, suc, ◌+◌, ◌*◌, ◌/◌, ◌%◌, ◌<◌, bit_and, bit_or, compare, Ordering}
use mathlib.Core.Path.{◌≡◌, refl}
use mathlib.Core.Bool.{Bool, true, false, ◌&&◌}
use native.Mathlib.Omega.{arith}

same_number : ℕ → ℕ → Bool
same_number a b = elim (compare a b) [ Ordering.eq ↦ true | _ ↦ false ]

all_same : ℕ → (ℕ → ℕ) → (ℕ → ℕ) → Bool
unfolding same_number
all_same zero f g = true
all_same (suc n) f g = same_number (f n) (g n) && all_same n f g

all_same→eq : (n : ℕ) (f g : ℕ → ℕ) (x : ℕ) → all_same n f g ≡ true → x < n → f x ≡ g x
unfolding all_same
all_same→eq zero f g x h lt = absurd (omega arith)
all_same→eq (suc n) f g x h lt = ground (arith, all_same→eq n f g x)

-- `b & 127` and `b & 128`.
pub low_seven : (b : ℕ) → b < 256 → bit_and b 127 ≡ b % 128
unfolding all_same
low_seven b h = all_same→eq 256 (λ b. bit_and b 127) (λ b. b % 128) b refl h

pub top_bit : (b : ℕ) → b < 256 → bit_and b 128 ≡ b / 128 * 128
unfolding all_same
top_bit b h = all_same→eq 256 (λ b. bit_and b 128) (λ b. b / 128 * 128) b refl h

-- `b | 0x80` on a group of seven bits.
pub set_top_bit : (b : ℕ) → b < 128 → bit_or b 0x80 ≡ b + 128
unfolding all_same
set_top_bit b h = all_same→eq 128 (λ b. bit_or b 0x80) (λ b. b + 128) b refl h

-- `b & 0xF0`.
pub high_nibble : (b : ℕ) → b < 256 → bit_and b 0xF0 ≡ b / 16 * 16
unfolding all_same
high_nibble b h = all_same→eq 256 (λ b. bit_and b 0xF0) (λ b. b / 16 * 16) b refl h
