-- ===== src/Tr50/Pending/Unlink.antt =====
-- The removal of a message from the linked list.
use mathlib.Core.Path.{subst}
use libtr.Base.{
  ◌⊎◌, ℕ, ◌≡◌, refl, sym, ap, ◌∙◌, List, [], ◌∷◌, ◌++◌, Option, none, some, false, ◌==◌, All, inl,
  inr, arith,
}
use libtr.Error.{ok}
use libtr.Tr50.Pending.{Store, write, set_next, set_previous, unlink_previous, unlink_next}
use libtr.Tr50.Pending.Segment.{
  Segment, NotIn, Distinct, Distinct-snoc, snoc_cases, set_next-last, set_previous-first,
}
use libtr.Tr50.Pending.Refine.{modify-some}

NotIn-append : (x : ℕ) (xs ys : List ℕ) → NotIn x (xs ++ ys) → NotIn x xs × NotIn x ys
NotIn-append x [] ys out = (tt, out)
NotIn-append x (z ∷ xs) ys (here, out) =
    let (front, back) = NotIn-append x xs ys out in ((here, front), back)

pub append-NotIn : (x : ℕ) (xs ys : List ℕ) → NotIn x xs → NotIn x ys → NotIn x (xs ++ ys)
append-NotIn x [] ys front back = back
append-NotIn x (z ∷ xs) ys (here, front) back = (here, append-NotIn x xs ys front back)

NotIn-extend :
    (x : ℕ) (xs ys : List ℕ)
    → NotIn x ys
    → All (λ b. NotIn b xs) ys
    → All (λ b. NotIn b (x ∷ xs)) ys
NotIn-extend x xs [] out all = tt
NotIn-extend x xs (y ∷ ys) (here, out) (first, all) =
    ((ground (arith, here), first), NotIn-extend x xs ys out all)

no_one : (ys : List ℕ) → All (λ b. NotIn b []) ys
no_one [] = tt
no_one (y ∷ ys) = (tt, no_one ys)

-- The two parts of a list without repetitions are disjoint.
pub Distinct-append :
    (xs ys : List ℕ)
    → Distinct (xs ++ ys)
    → Distinct xs × Distinct ys × All (λ b. NotIn b ys) xs × All (λ b. NotIn b xs) ys
Distinct-append [] ys d = (tt, d, tt, no_one ys)
Distinct-append (x ∷ xs) ys (out, d) =
    let (out_xs, out_ys) = NotIn-append x xs ys out in
    let (dx, dy, front, back) = Distinct-append xs ys d in
    ((out_xs, dx), dy, (out_ys, front), NotIn-extend x xs ys out_ys back)

pub Distinct-without :
    (xs : List ℕ) (a : ℕ) (ys : List ℕ) → Distinct (xs ++ (a ∷ ys)) → Distinct (xs ++ ys)
Distinct-without [] a ys (out, d) = d
Distinct-without (x ∷ xs) a ys (out, d) =
    let (out_xs, (other, out_ys)) = NotIn-append x xs (a ∷ ys) out in
    (append-NotIn x xs ys out_xs out_ys, Distinct-without xs a ys d)

-- A store that differs only at addresses of one part is the same at the other.
pub same_at :
    (store store' : Store) (xs ys : List ℕ)
    → ((b : ℕ) → NotIn b xs → store' b ≡ store b)
    → All (λ b. NotIn b xs) ys
    → All (λ b. store' b ≡ store b) ys
same_at store store' xs [] frame all = tt
same_at store store' xs (y ∷ ys) frame (here, all) =
    (frame y here, same_at store store' xs ys frame all)

last_apart : (b : ℕ) (xs : List ℕ) (t : ℕ) → NotIn b (xs ++ (t ∷ [])) → (t == b) ≡ false
last_apart b xs t out =
    let (_, (other, _)) = NotIn-append b xs (t ∷ []) out in ground (arith, other)

pub unlink_previous-Segment :
    (store : Store) (xs : List ℕ) (next next' head last : Option ℕ)
    → Segment store none xs next head last
    → Distinct xs
    → (store' : Store) × (head' : Option ℕ) × (unlink_previous store head last next'
        ≡ ok (store', head'))
      × Segment store' none xs next' head' last
      × ((b : ℕ) → NotIn b xs → store' b ≡ store b)
unfolding unlink_previous
unlink_previous-Segment store xs next next' head last seg d = go xs (snoc_cases xs) seg d
  where
    go :
        (xs : List ℕ)
        → (xs ≡ []) ⊎ ((ys : List ℕ) × (t : ℕ) × (xs ≡ ys ++ (t ∷ [])))
        → Segment store none xs next head last
        → Distinct xs
        → (store' : Store) × (head' : Option ℕ) × (unlink_previous store head last next'
            ≡ ok (store', head'))
          × Segment store' none xs next' head' last
          × ((b : ℕ) → NotIn b xs → store' b ≡ store b)
    go [] _ (first, end) d =
        (store, next', ap (λ l. unlink_previous store head l next') end, (refl, end), λ b out. refl)
    go (x ∷ xs) (inl e) seg d = cc
    go (x ∷ xs) (inr (ys, t, e)) seg d =
        let seg' = subst (λ zs. Segment store none zs next head last) e seg in
        let (once, _) = Distinct-snoc ys t (subst Distinct e d) in
        let (m, got, end, linked) = set_next-last store none ys t next next' head last once seg' in
        let store' = write store t (set_next next' m) in
        let step = modify-some store t m (set_next next') got in
        let eq : unlink_previous store head (some t) next' ≡ ok (store', head) = rw step refl in
        (
          store',
          head,
          ap (λ l. unlink_previous store head l next') end ∙ eq,
          subst (λ l. Segment store' none (x ∷ xs) next' head l) (sym end)
              (subst (λ zs. Segment store' none zs next' head (some t)) (sym e) linked),
          λ b out. rw (last_apart b ys t (subst (NotIn b) e out)) refl,
        )

pub unlink_next-Segment :
    (store : Store) (ys : List ℕ) (previous previous' next tail : Option ℕ)
    → Segment store previous ys none next tail
    → Distinct ys
    → (store' : Store) × (tail' : Option ℕ) × (unlink_next store tail previous' next
        ≡ ok (store', tail'))
      × Segment store' previous' ys none next tail'
      × ((b : ℕ) → NotIn b ys → store' b ≡ store b)
unfolding unlink_next
unlink_next-Segment store [] previous previous' next tail (first, end) d = (
  store,
  previous',
  ap (λ n. unlink_next store tail previous' n) first,
  (first, refl),
  λ b out. refl,
)
unlink_next-Segment store (u ∷ ys) previous previous' next tail seg (once, d) =
    let (m, got, first, linked) =
      set_previous-first store previous previous' u ys none next tail once seg in
    let store' = write store u (set_previous previous' m) in
    let step = modify-some store u m (set_previous previous') got in
    let eq : unlink_next store tail previous' (some u) ≡ ok (store', tail) = rw step refl in
    (
      store',
      tail,
      ap (λ n. unlink_next store tail previous' n) first ∙ eq,
      linked,
      λ b (here, out). (let apart : (u == b) ≡ false = ground (arith, here) in rw apart refl),
    )
