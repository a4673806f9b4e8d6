-- ===== src/Tr50/Pending/Delete.antt =====
-- The deletion of the messages that a sweep took out.
use libtr.Base.{
  none, ℕ, ◌+◌, ◌≡◌, refl, ap, ◌∙◌, List, [], ◌∷◌, Bool, true, false, All, Bool-cases, inl, inr,
  ◌==◌, ◌≢◌, arith,
}
use libtr.Tr50.Pending.{Pending, forget, deleted}
use libtr.Tr50.Pending.Segment.{Segment-frame}
use libtr.Tr50.Pending.Refine.{IsList}
use libtr.Tr50.Pending.Sweep.{over, waiting}

-- The messages that a test tells apart.
over-All : (test : ℕ → Bool) (xs : List ℕ) → All (λ a. test a ≡ true) (over test xs)
over-All test [] = tt
over-All test (a ∷ xs) = elim (Bool-cases (test a)) [
  | inl due ↦ rw due (due, over-All test xs)
  | inr early ↦ rw early (over-All test xs)
]

pub waiting-All : (test : ℕ → Bool) (xs : List ℕ) → All (λ a. test a ≡ false) (waiting test xs)
waiting-All test [] = tt
waiting-All test (a ∷ xs) = elim (Bool-cases (test a)) [
  | inl due ↦ rw due (waiting-All test xs)
  | inr early ↦ rw early (early, waiting-All test xs)
]

-- A message that was not deleted is as it was.
deleted-other :
    (test : ℕ → Bool) (pending : Pending) (gone : List ℕ) (b : ℕ)
    → All (λ a. test a ≡ true) gone
    → test b ≡ false
    → (deleted pending gone).store b ≡ pending.store b
deleted-other test pending [] b due early = refl
deleted-other test pending (a ∷ gone) b (due, rest) early =
    let differs : a ≢ b = λ e. absurd (cc (ap test e, due, early)) in
    let p1 = forget (record pending { expired_count = pending.expired_count + 1 }) a in
    let apart : (a == b) ≡ false = ground (arith, differs) in
    deleted-other test p1 gone b rest early ∙ rw apart refl

deleted-fields :
    (pending : Pending) (gone : List ℕ)
    → ((deleted pending gone).list_head ≡ pending.list_head)
      × ((deleted pending gone).list_tail ≡ pending.list_tail)
      × ((deleted pending gone).count ≡ pending.count)
deleted-fields pending [] = (refl, refl, refl)
deleted-fields pending (a ∷ gone) =
    deleted-fields (forget (record pending { expired_count = pending.expired_count + 1 }) a) gone

-- What a sweep leaves in the store is as it was.
pub deleted-kept :
    (test : ℕ → Bool) (pending : Pending) (xs : List ℕ) (b : ℕ)
    → test b ≡ false
    → (deleted pending (over test xs)).store b ≡ pending.store b
deleted-kept test pending xs b early =
    deleted-other test pending (over test xs) b (over-All test xs) early

-- The list that a sweep leaves is well linked behind the deletion as well.
pub deleted-IsList :
    (test : ℕ → Bool) (pending : Pending) (xs : List ℕ)
    → IsList pending (waiting test xs)
    → IsList (deleted pending (over test xs)) (waiting test xs)
deleted-IsList test pending xs list =
    let gone = over test xs in
    let p1 = deleted pending gone in
    let (head, tail, count) = deleted-fields pending gone in
    record {
      linked =
          rw (head, tail)
            (Segment-frame pending.store p1.store none (waiting test xs) none pending.list_head
              pending.list_tail (others (waiting test xs) (waiting-All test xs)) list.linked);
      distinct = list.distinct;
      counted = count ∙ list.counted;
    }
  where
    others :
        (ys : List ℕ)
        → All (λ a. test a ≡ false) ys
        → All (λ a. (deleted pending (over test xs)).store a ≡ pending.store a) ys
    others [] early = tt
    others (a ∷ ys) (here, early) =
        (deleted-other test pending (over test xs) a (over-All test xs) here, others ys early)
