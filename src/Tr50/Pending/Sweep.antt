-- ===== src/Tr50/Pending/Sweep.antt =====
-- The sweep for requests whose time is over.
use libtr.Tr50.Pending.Keeps.{removed_view}
use mathlib.Core.Path.{subst}
use libtr.Base.{
  ℕ, zero, suc, ◌<◌, ◌≡◌, refl, sym, ap, ◌∙◌, List, [], ◌∷◌, ◌++◌, append_assoc, Option, none, some,
  Bool, true, false, leb, if◌then◌else◌, length, Bool-cases, inl, inr, arith,
}
use libtr.Error.{ok}
use libtr.Tr50.Pending.{Message, Store, Pending, linklist_remove, expired, kept, fate_of, sweep}
use libtr.Tr50.Pending.Segment.{Segment, Segment-split}
use libtr.Tr50.Pending.Refine.{IsList}
use libtr.Tr50.Pending.Remove.{linklist_remove-IsList}

abbrev pub over_of : ℕ → Option Message → Bool
over_of now none = false
over_of now (some m) = leb m.pending_expiration_timestamp now

-- Whether the time of the message at an address is over.
abbrev pub is_over : ℕ → Store → ℕ → Bool
is_over now store a = over_of now (store a)

-- A message expires as soon as its time is over, and is left alone before: the tests for a clock
-- that was shifted never hold, so that none is rescheduled.
pub fate_of_lem :
    (now : ℕ) (m : Message)
    → fate_of now m ≡ (if leb m.pending_expiration_timestamp now then expired else kept)
unfolding fate_of
fate_of_lem now m = ground arith

-- The messages whose time is over, and the others.
abbrev pub over : (ℕ → Bool) → List ℕ → List ℕ
over test [] = []
over test (a ∷ xs) = if test a then a ∷ over test xs else over test xs

abbrev pub waiting : (ℕ → Bool) → List ℕ → List ℕ
waiting test [] = []
waiting test (a ∷ xs) = if test a then waiting test xs else a ∷ waiting test xs

abbrev first_of : List ℕ → Option ℕ
first_of [] = none
first_of (a ∷ xs) = some a

Segment-first :
    (store : Store) (previous : Option ℕ) (xs : List ℕ) (head tail : Option ℕ)
    → Segment store previous xs none head tail
    → head ≡ first_of xs
Segment-first store previous [] head tail seg = seg.0
Segment-first store previous (a ∷ xs) head tail seg = seg.0

pub fate_of-over :
    (now : ℕ) (m : Message) (b : Bool)
    → leb m.pending_expiration_timestamp now ≡ b
    → fate_of now m ≡ (if b then expired else kept)
fate_of-over now m b h = fate_of_lem now m ∙ ap (λ t. if t then expired else kept) h

sweep_eq-expired :
    (fuel now : ℕ) (pending p1 p2 : Pending) (a : ℕ) (m : Message) (gone : List ℕ)
    → pending.store a ≡ some m
    → fate_of now m ≡ expired
    → linklist_remove pending a ≡ ok p1
    → sweep fuel now p1 m.pending_next ≡ ok (p2, gone)
    → sweep (suc fuel) now pending (some a) ≡ ok (p2, a ∷ gone)
unfolding sweep
sweep_eq-expired fuel now pending p1 p2 a m gone got fate removed run =
    rw (got, sweep) (rw (fate) (rw (removed, run) refl))

sweep_eq-end :
    (fuel now : ℕ) (pending : Pending) → sweep (suc fuel) now pending none ≡ ok (pending, [])
unfolding sweep
sweep_eq-end fuel now pending = refl

sweep_eq-kept :
    (fuel now : ℕ) (pending p1 : Pending) (a : ℕ) (m : Message) (gone : List ℕ)
    → pending.store a ≡ some m
    → fate_of now m ≡ kept
    → sweep fuel now pending m.pending_next ≡ ok (p1, gone)
    → sweep (suc fuel) now pending (some a) ≡ ok (p1, gone)
unfolding sweep
sweep_eq-kept fuel now pending p1 a m gone got fate run = rw (got, sweep) (rw (fate) run)

sweep_run :
    (fuel now : ℕ) (test : ℕ → Bool) (pending : Pending) (pre xs : List ℕ) (next : Option ℕ)
    → ((b : ℕ) → is_over now pending.store b ≡ test b)
    → IsList pending (pre ++ xs)
    → next ≡ first_of xs
    → length xs < fuel
    → (pending' : Pending) × (sweep fuel now pending next ≡ ok (pending', over test xs))
      × IsList pending' (pre ++ waiting test xs)
sweep_run zero now test pending pre xs next times list starts enough = absurd (omega arith)
sweep_run (suc fuel) now test pending pre [] next times list starts enough =
    (pending, ap (λ n. sweep (suc fuel) now pending n) starts ∙ sweep_eq-end fuel now pending, list)
sweep_run (suc fuel) now test pending pre (a ∷ xs) next times list starts enough =
    let (middle, last, front, (first, m, got, prev, seg)) =
      Segment-split pending.store none pre (a ∷ xs) none pending.list_head pending.list_tail
        list.linked in
    let m_next = Segment-first pending.store (some a) xs m.pending_next pending.list_tail seg in
    let over_a : leb m.pending_expiration_timestamp now ≡ test a =
      sym (ap (over_of now) got) ∙ times a in
    let start = ap (λ n. sweep (suc fuel) now pending n) starts in
    elim (Bool-cases (test a)) [
      | inl due ↦
          let fate = fate_of-over now m true (over_a ∙ due) in
          let (p1, removed, list1) = linklist_remove-IsList pending pre a xs list in
          let times1 : (b : ℕ) → is_over now p1.store b ≡ is_over now pending.store b =
            removed_view (over_of now) (λ m p. refl) (λ m p. refl) pending p1 a removed in
          let (p2, run, list2) =
            sweep_run fuel now test p1 pre xs m.pending_next (λ b. times1 b ∙ times b) list1 m_next
              (omega arith) in
          rw due (
            p2,
            start ∙ sweep_eq-expired fuel now pending p1 p2 a m (over test xs) got fate removed run,
            list2,
          )
      | inr early ↦
          let fate = fate_of-over now m false (over_a ∙ early) in
          let moved = subst (IsList pending) (sym (append_assoc pre (a ∷ []) xs)) list in
          let (p1, run, list1) =
            sweep_run fuel now test pending (pre ++ (a ∷ [])) xs m.pending_next times moved m_next
              (omega arith) in
          rw early (
            p1,
            start ∙ sweep_eq-kept fuel now pending p1 a m (over test xs) got fate run,
            subst (IsList p1) (append_assoc pre (a ∷ []) (waiting test xs)) list1,
          )
    ]

-- Where the list is well linked and the fuel is above its length, the sweep removes exactly the
-- messages whose time is over and reports them in the order of the list; the others stay in the
-- list, well linked and in their order.
pub sweep-over :
    (fuel now : ℕ) (pending : Pending) (xs : List ℕ)
    → IsList pending xs
    → length xs < fuel
    → (pending' : Pending) × (sweep fuel now pending pending.list_head
        ≡ ok (pending', over (is_over now pending.store) xs))
      × IsList pending' (waiting (is_over now pending.store) xs)
sweep-over fuel now pending xs list enough =
    sweep_run fuel now (is_over now pending.store) pending [] xs pending.list_head (λ b. refl) list
      (Segment-first pending.store none xs pending.list_head pending.list_tail list.linked) enough
