-- ===== src/Tr50/Client/Decimal.antt =====
-- The identifier of a call in a topic: `snprintf` with "%s/%d" where it is sent, and `atoi` where
-- the reply comes.
use native.Mathlib.Decide.{dec_lt}
use libtr.Base.{
  sym, lt→ltb, le→ltb_false, length, length-append, ap, ◌∙◌, All, ◌≤◌, ℕ, zero, suc, ◌+◌, ◌-◌, ◌*◌,
  ◌/◌, ◌%◌, ◌<◌, ◌≡◌, refl, List, [], ◌∷◌, ◌++◌, Bool, true, false, ◌&&◌, leb, ltb, ◌==◌,
  if◌then◌else◌, arith,
}
use libtr.Base.Int.{ℤ, pos, neg}

-- The digits of a number, on fuel; a round for each digit.
print_loop : ℕ → ℕ → List ℕ
print_loop zero n = []
print_loop (suc fuel) n = elim (ltb n 10) [
  | true ↦ (48 + n) ∷ []
  | false ↦ print_loop fuel (n / 10) ++ ((48 + n % 10) ∷ [])
]

-- "%d" of a number that is not negative.
unfoldable pub print_decimal : ℕ → List ℕ
unfolding print_loop
print_decimal n = print_loop (suc n) n

abbrev is_digit : ℕ → Bool
is_digit c = leb 48 c && leb c 57

-- The digits up to the first byte that is none.
unfoldable pub digits_from : ℕ → List ℕ → ℕ
digits_from n [] = n
digits_from n (c ∷ s) = elim (is_digit c) [ true ↦ digits_from (n * 10 + (c - 48)) s | false ↦ n ]

-- `isspace`.
abbrev is_space : ℕ → Bool
is_space c = if c == 32 then true else leb 9 c && leb c 13

abbrev signed : List ℕ → ℤ
signed [] = pos 0
signed (c ∷ s) =
    if c == 45
    then neg (digits_from 0 s)
    else if c == 43
    then pos (digits_from 0 s)
    else pos (digits_from 0 (c ∷ s))

unfoldable pub skip_spaces : List ℕ → List ℕ
skip_spaces [] = []
skip_spaces (c ∷ s) = elim (is_space c) [ true ↦ skip_spaces s | false ↦ c ∷ s ]

-- `atoi`, for a number that an `int` holds.
unfoldable pub atoi : List ℕ → ℤ
unfolding skip_spaces digits_from
atoi s = signed (skip_spaces s)

abbrev IsDigit : ℕ → Type 0
IsDigit c = (48 ≤ c) × (c ≤ 57)

digits_step :
    (n c : ℕ) (s : List ℕ) → IsDigit c → digits_from n (c ∷ s) ≡ digits_from (n * 10 + (c - 48)) s
unfolding digits_from
digits_step n c s (lo, hi) = let e : is_digit c ≡ true = ground arith in rw (e, digits_from) refl

digits_from-append :
    (n : ℕ) (s t : List ℕ)
    → All IsDigit s
    → digits_from n (s ++ t) ≡ digits_from (digits_from n s) t
unfolding digits_from
digits_from-append n [] t all = refl
digits_from-append n (c ∷ s) t (here, all) =
    digits_step n c (s ++ t) here
    ∙ (digits_from-append (n * 10 + (c - 48)) s t all
        ∙ ap (λ k. digits_from k t) (sym (digits_step n c s here)))

print_small : (fuel n : ℕ) → n < 10 → print_loop (suc fuel) n ≡ (48 + n) ∷ []
unfolding print_loop
print_small fuel n h = rw (lt→ltb n 10 h, print_loop) refl

print_large :
    (fuel n : ℕ)
    → 10 ≤ n
    → print_loop (suc fuel) n ≡ print_loop fuel (n / 10) ++ ((48 + n % 10) ∷ [])
unfolding print_loop
print_large fuel n h = rw (le→ltb_false n 10 h, print_loop) refl

one_digit : (n d : ℕ) → d < 10 → digits_from n ((48 + d) ∷ []) ≡ n * 10 + d
unfolding digits_from
one_digit n d h = digits_step n (48 + d) [] (omega arith) ∙ omega arith

All-snoc : (s : List ℕ) (c : ℕ) → All IsDigit s → IsDigit c → All IsDigit (s ++ (c ∷ []))
All-snoc [] c all h = (h, tt)
All-snoc (d ∷ s) c (here, all) h = (here, All-snoc s c all h)

-- What `print_loop` gives: digits, at least one of them, that are read back.
abbrev Prints : ℕ → List ℕ → Type 0
Prints n s = All IsDigit s × (0 < length s) × (digits_from 0 s ≡ n)

print_loop-Prints : (fuel n : ℕ) → n < fuel → Prints n (print_loop fuel n)
print_loop-Prints zero n h = absurd (omega arith)
print_loop-Prints (suc fuel) n h = elim (dec_lt n 10) [
  | yes small ↦
      rw (print_small fuel n small)
        ((omega arith, tt), omega arith, one_digit 0 n small ∙ omega arith)
  | no large ↦
      let (all, some_digit, back) = print_loop-Prints fuel (n / 10) (omega arith) in
      let front : List ℕ = print_loop fuel (n / 10) in
      let last : List ℕ = (48 + n % 10) ∷ [] in
      rw (print_large fuel n (omega arith)) (
        All-snoc front (48 + n % 10) all (omega arith),
        omega (arith, length-append front last),
        digits_from-append 0 front last all
            ∙ (ap (λ k. digits_from k last) back
                ∙ (one_digit (n / 10) (n % 10) (omega arith) ∙ omega arith)),
      )
]

atoi-digits : (s : List ℕ) → All IsDigit s → 0 < length s → atoi s ≡ pos (digits_from 0 s)
unfolding atoi
atoi-digits [] all h = absurd (omega arith)
atoi-digits (c ∷ s) ((lo, hi), all) h = ground arith

-- The identifier that stands in the topic of a call is read back from the topic of its reply.
pub atoi-print_decimal : (n : ℕ) → atoi (print_decimal n) ≡ pos n
unfolding print_decimal
atoi-print_decimal n =
    let (all, some_digit, back) = print_loop-Prints (suc n) n (omega arith) in
    atoi-digits (print_loop (suc n) n) all some_digit ∙ ap pos back
