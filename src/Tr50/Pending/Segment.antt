-- ===== src/Tr50/Pending/Segment.antt =====
-- A stretch of a doubly linked list in a store, and what writes do to it.
use mathlib.Core.Path.{subst}
use libtr.Base.{
  ◌⊎◌, ℕ, ◌≡◌, refl, sym, ap, ◌∙◌, List, [], ◌∷◌, ◌++◌, Option, some, false, ◌==◌, All, inl, inr,
  arith,
}
use libtr.Tr50.Pending.{Message, Store, write, set_next, set_previous}

-- The messages at `xs` are linked in this order behind `previous` and in front of `next`; the first
-- pointer into them is `head`, and the last one of them is `tail`.
abbrev pub Segment : Store → Option ℕ → List ℕ → Option ℕ → Option ℕ → Option ℕ → Type 0
Segment store previous [] next head tail = (head ≡ next) × (tail ≡ previous)
Segment store previous (a ∷ xs) next head tail =
    (head ≡ some a)
    × (m : Message) × (store a ≡ some m)
    × (m.pending_previous ≡ previous)
    × Segment store (some a) xs next m.pending_next tail

abbrev pub NotIn : ℕ → List ℕ → Type 0
NotIn a = All (λ b. (a == b) ≡ false)

abbrev pub Distinct : List ℕ → Type 0
Distinct [] = Unit {0}
Distinct (a ∷ xs) = NotIn a xs × Distinct xs

-- A store that is the same at the addresses of a stretch.
pub Segment-frame :
    (store store' : Store) (previous : Option ℕ) (xs : List ℕ) (next head tail : Option ℕ)
    → All (λ a. store' a ≡ store a) xs
    → Segment store previous xs next head tail
    → Segment store' previous xs next head tail
Segment-frame store store' previous [] next head tail same seg = seg
Segment-frame store store' previous (a ∷ xs) next head tail (here, rest)
      (first, m, got, prev, seg) =
    (
      first,
      m,
      here ∙ got,
      prev,
      Segment-frame store store' (some a) xs next m.pending_next tail rest seg,
    )

pub Segment-split :
    (store : Store) (previous : Option ℕ) (xs ys : List ℕ) (next head tail : Option ℕ)
    → Segment store previous (xs ++ ys) next head tail
    → (middle : Option ℕ) × (last : Option ℕ) × Segment store previous xs middle head last
      × Segment store last ys next middle tail
Segment-split store previous [] ys next head tail seg = (head, previous, (refl, refl), seg)
Segment-split store previous (a ∷ xs) ys next head tail (first, m, got, prev, seg) =
    let (middle, last, front, back) =
      Segment-split store (some a) xs ys next m.pending_next tail seg in
    (middle, last, (first, m, got, prev, front), back)

pub Segment-join :
    (store : Store) (previous : Option ℕ) (xs ys : List ℕ) (next head tail middle last : Option ℕ)
    → Segment store previous xs middle head last
    → Segment store last ys next middle tail
    → Segment store previous (xs ++ ys) next head tail
Segment-join store previous [] ys next head tail middle last (h, l) seg =
    subst (λ p. Segment store p ys next head tail) l
      (subst (λ p. Segment store last ys next p tail) (sym h) seg)
Segment-join store previous (a ∷ xs) ys next head tail middle last (first, m, got, prev, seg) back =
    (
      first,
      m,
      got,
      prev,
      Segment-join store (some a) xs ys next m.pending_next tail middle last seg back,
    )

-- A write elsewhere.
pub write-same :
    (store : Store) (a : ℕ) (m : Message) (xs : List ℕ)
    → NotIn a xs
    → All (λ b. write store a m b ≡ store b) xs
write-same store a m [] out = tt
write-same store a m (b ∷ xs) (here, out) = (rw here refl, write-same store a m xs out)

pub write-here : (store : Store) (a : ℕ) (m : Message) → write store a m a ≡ some m
write-here store a m = ground arith

pub NotIn-snoc :
    (a : ℕ) (xs : List ℕ) (t : ℕ) → NotIn a (xs ++ (t ∷ [])) → NotIn a xs × ((a == t) ≡ false)
NotIn-snoc a [] t (here, out) = (tt, here)
NotIn-snoc a (x ∷ xs) t (here, out) =
    let (rest, last) = NotIn-snoc a xs t out in ((here, rest), last)

pub Distinct-snoc : (xs : List ℕ) (t : ℕ) → Distinct (xs ++ (t ∷ [])) → NotIn t xs × Distinct xs
Distinct-snoc [] t d = (tt, tt)
Distinct-snoc (x ∷ xs) t (out, d) =
    let (out', d') = Distinct-snoc xs t d in
    let (rest, last) = NotIn-snoc x xs t out in ((ground (arith, last), out'), (rest, d'))

pub snoc-Distinct : (xs : List ℕ) (t : ℕ) → NotIn t xs → Distinct xs → Distinct (xs ++ (t ∷ []))
snoc-Distinct [] t out d = (tt, tt)
snoc-Distinct (x ∷ xs) t (here, out) (out', d) =
    (NotIn-append x xs t (ground (arith, here)) out', snoc-Distinct xs t out d)
  where
    NotIn-append :
        (x : ℕ) (xs : List ℕ) (t : ℕ) → (x == t) ≡ false → NotIn x xs → NotIn x (xs ++ (t ∷ []))
    NotIn-append x [] t h out = (h, tt)
    NotIn-append x (y ∷ xs) t h (here, out) = (here, NotIn-append x xs t h out)

-- A list is empty or has a last element.
pub snoc_cases : (xs : List ℕ) → (xs ≡ []) ⊎ ((ys : List ℕ) × (t : ℕ) × (xs ≡ ys ++ (t ∷ [])))
snoc_cases [] = inl refl
snoc_cases (x ∷ xs) = elim (snoc_cases xs) [
  | inl e ↦ inr ([], x, ap (λ t. x ∷ t) e)
  | inr (ys, t, e) ↦ inr (x ∷ ys, t, ap (λ z. x ∷ z) e)
]

-- The pointer behind the last message of a stretch is set.
pub set_next-last :
    (store : Store) (previous : Option ℕ) (xs : List ℕ) (t : ℕ) (next next' head tail : Option ℕ)
    → NotIn t xs
    → Segment store previous (xs ++ (t ∷ [])) next head tail
    → (m : Message) × (store t ≡ some m)
      × (tail ≡ some t)
      × Segment (write store t (set_next next' m)) previous (xs ++ (t ∷ [])) next' head (some t)
set_next-last store previous xs t next next' head tail out seg =
    let (middle, last, front, (first, m, got, prev, (behind, end))) =
      Segment-split store previous xs (t ∷ []) next head tail seg in
    let store' = write store t (set_next next' m) in
    let front' =
      Segment-frame store store' previous xs middle head last
        (write-same store t (set_next next' m) xs out) front in
    (
      m,
      got,
      end,
      Segment-join store' previous xs (t ∷ []) next' head (some t) middle last front'
          (first, set_next next' m, write-here store t (set_next next' m), prev, (refl, refl)),
    )

-- The pointer in front of the first message of a stretch is set.
pub set_previous-first :
    (store : Store) (previous previous' : Option ℕ) (u : ℕ) (ys : List ℕ)
    (next head tail : Option ℕ)
    → NotIn u ys
    → Segment store previous (u ∷ ys) next head tail
    → (m : Message) × (store u ≡ some m)
      × (head ≡ some u)
      × Segment (write store u (set_previous previous' m)) previous' (u ∷ ys) next head tail
set_previous-first store previous previous' u ys next head tail out (first, m, got, prev, seg) =
    let m' = set_previous previous' m in
    (
      m,
      got,
      first,
      (
        first,
        m',
        write-here store u m',
        refl,
        Segment-frame store (write store u m') (some u) ys next m.pending_next tail
            (write-same store u m' ys out) seg,
      ),
    )
