-- ===== src/Tr50/Pending/Search.antt =====
-- The search for an identifier in a list that grew or lost its messages whose time is over.
use libtr.Tr50.Pending.Keeps.{linklist_remove-view}
use mathlib.Core.Path.{subst}
use libtr.Tr50.Pending.Refine.{IsList}
use libtr.Base.{
  All, append-nil, leb, ℕ, zero, suc, ◌+◌, ◌≡◌, refl, sym, ap, ◌∙◌, List, [], ◌∷◌, ◌++◌, Option,
  none, some, Bool, true, false, ◌==◌, length, Bool-cases, Option-cases, inl, inr, arith,
}
use libtr.Error.{Holds-then, Holds, ok}
use libtr.Tr50.Pending.{linklist_remove, Pending, find_and_remove, sweep, Message, Store, find}
use libtr.Tr50.Pending.Segment.{Segment}
use libtr.Tr50.Pending.Remove.{
  find_lem, find_and_remove-missing, linklist_remove-IsList, first_with,
}
use libtr.Tr50.Pending.Sweep.{fate_of-over, waiting}

-- The identifier of a message.
abbrev pub id_of : Option Message → Option ℕ
id_of none = none
id_of (some m) = some m.seq_id

abbrev pub carries : ℕ → Option ℕ → Bool
carries hash none = false
carries hash (some seq_id) = seq_id == hash

-- None of the messages at `xs` has the identifier.
abbrev pub Lacks : Store → ℕ → List ℕ → Type 0
Lacks store hash [] = Unit {0}
Lacks store hash (a ∷ xs) =
    ((m : Message) × (store a ≡ some m) × ((m.seq_id == hash) ≡ false)) × Lacks store hash xs

pub Lacks-first_with :
    (store : Store) (hash : ℕ) (xs ys : List ℕ)
    → Lacks store hash xs
    → first_with store hash (xs ++ ys) ≡ first_with store hash ys
Lacks-first_with store hash [] ys lacks = refl
Lacks-first_with store hash (a ∷ xs) ys ((m, got, other), lacks) =
    rw (got, other) (Lacks-first_with store hash xs ys lacks)

-- A store in which the messages of the list have the same identifiers.
pub Lacks-alike :
    (store store' : Store) (hash : ℕ) (xs : List ℕ)
    → All (λ b. id_of (store' b) ≡ id_of (store b)) xs
    → Lacks store hash xs
    → Lacks store' hash xs
Lacks-alike store store' hash [] same lacks = tt
Lacks-alike store store' hash (a ∷ xs) (here, same) ((m, got, other), lacks) = (
  elim (Option-cases (store' a)) [
    | inl gone ↦ absurd (cc (here, ap id_of got, ap id_of gone))
    | inr (m', got') ↦
        let e : some m'.seq_id ≡ some m.seq_id = sym (ap id_of got') ∙ (here ∙ ap id_of got) in
        (m', got', ap (carries hash) e ∙ other)
  ],
  Lacks-alike store store' hash xs same lacks,
)

All-given : (P : ℕ → Type 0) (xs : List ℕ) → ((b : ℕ) → P b) → All P xs
All-given P [] given = tt
All-given P (a ∷ xs) given = (given a, All-given P xs given)

pub Lacks-same :
    (store store' : Store) (hash : ℕ) (xs : List ℕ)
    → ((b : ℕ) → id_of (store' b) ≡ id_of (store b))
    → Lacks store hash xs
    → Lacks store' hash xs
Lacks-same store store' hash xs same lacks =
    Lacks-alike store store' hash xs (All-given (λ b. id_of (store' b) ≡ id_of (store b)) xs same)
      lacks

pub Lacks-waiting :
    (store : Store) (hash : ℕ) (test : ℕ → Bool) (xs : List ℕ)
    → Lacks store hash xs
    → Lacks store hash (waiting test xs)
Lacks-waiting store hash test [] lacks = tt
Lacks-waiting store hash test (a ∷ xs) (here, lacks) = elim (Bool-cases (test a)) [
  | inl due ↦ rw due (Lacks-waiting store hash test xs lacks)
  | inr early ↦ rw early (here, Lacks-waiting store hash test xs lacks)
]

pub waiting-append :
    (test : ℕ → Bool) (xs ys : List ℕ)
    → waiting test (xs ++ ys) ≡ waiting test xs ++ waiting test ys
waiting-append test [] ys = refl
waiting-append test (a ∷ xs) ys = elim (Bool-cases (test a)) [
  | inl due ↦ rw due (waiting-append test xs ys)
  | inr early ↦ rw early (ap (λ t. a ∷ t) (waiting-append test xs ys))
]

find_next :
    (fuel : ℕ) (store : Store) (hash a : ℕ) (m : Message)
    → store a ≡ some m
    → (m.seq_id == hash) ≡ false
    → find (suc fuel) store hash (some a) ≡ find fuel store hash m.pending_next
unfolding find
find_next fuel store hash a m got other = rw (got, find) (rw (other) refl)

-- The search goes past the messages that lack the identifier, to whatever stands behind them.
pub find-past :
    (fuel total : ℕ) (store : Store) (hash : ℕ) (previous : Option ℕ) (xs : List ℕ)
    (next head tail : Option ℕ)
    → Segment store previous xs next head tail
    → Lacks store hash xs
    → total ≡ length xs + fuel
    → find total store hash head ≡ find fuel store hash next
find-past fuel total store hash previous [] next head tail (first, end) lacks e =
    let same : total ≡ fuel = omega arith in
    ap (λ h. find total store hash h) first ∙ ap (λ t. find t store hash next) same
find-past fuel zero store hash previous (a ∷ xs) next head tail seg lacks e = absurd (omega arith)
find-past fuel (suc total) store hash previous (a ∷ xs) next head tail (first, m, got, prev, seg)
      ((m', got', other), lacks) e =
    let same : some m' ≡ some m = sym got' ∙ got in
    let other' : (m.seq_id == hash) ≡ false = sym (ap (λ o. carries hash (id_of o)) same) ∙ other in
    ap (λ h. find (suc total) store hash h) first
    ∙ (find_next total store hash a m got other'
        ∙ find-past fuel total store hash (some a) xs next m.pending_next tail seg lacks
            (omega arith))

sweep-id_of :
    (fuel now : ℕ) (pending : Pending) (next : Option ℕ)
    → Holds
        (λ (pending', gone). (b : ℕ) → id_of (pending'.store b) ≡ id_of (pending.store b))
        (sweep fuel now pending next)
unfolding sweep
sweep-id_of zero now pending next = tt
sweep-id_of (suc fuel) now pending none = λ b. refl
sweep-id_of (suc fuel) now pending (some ptr) = elim (Option-cases (pending.store ptr)) [
  | inl lost ↦ rw (lost, sweep) tt
  | inr (m, got) ↦ elim (Bool-cases (leb m.pending_expiration_timestamp now)) [
    | inr early ↦
        rw (got, sweep)
          (rw (fate_of-over now m false early) (sweep-id_of fuel now pending m.pending_next))
    | inl due ↦
        rw (got, sweep)
          (rw (fate_of-over now m true due) (
            Holds-then (λ p1. (b : ℕ) → id_of (p1.store b) ≡ id_of (pending.store b)) _
              (linklist_remove pending ptr) _
              (linklist_remove-view id_of (λ m p. refl) (λ m p. refl) pending ptr)
              (λ p1 h1.
                Holds-then (λ (p2, gone). (b : ℕ) → id_of (p2.store b) ≡ id_of (p1.store b)) _
                  (sweep fuel now p1 m.pending_next) _ (sweep-id_of fuel now p1 m.pending_next)
                  (λ (p2, gone) h2 b. h2 b ∙ h1 b))))
  ]
]

-- A sweep keeps the identifiers.
pub swept-id_of :
    (fuel now : ℕ) (pending pending' : Pending) (next : Option ℕ) (gone : List ℕ)
    → sweep fuel now pending next ≡ ok (pending', gone)
    → (b : ℕ) → id_of (pending'.store b) ≡ id_of (pending.store b)
swept-id_of fuel now pending pending' next gone run =
    subst (Holds (λ (p, gone). (b : ℕ) → id_of (p.store b) ≡ id_of (pending.store b))) run
      (sweep-id_of fuel now pending next)

first_with-here :
    (store : Store) (a hash : ℕ)
    → id_of (store a) ≡ some hash
    → first_with store hash (a ∷ []) ≡ some a
first_with-here store a hash carried = elim (Option-cases (store a)) [
  | inl gone ↦ absurd (cc (carried, ap id_of gone))
  | inr (m, got) ↦
      let e : some m.seq_id ≡ some hash = sym (ap id_of got) ∙ carried in
      let same : (m.seq_id == hash) ≡ true = ground (arith, e) in ground (arith, got, same)
]

-- A request that is the last of the list is found behind those that lack its identifier.
pub find_and_remove-last :
    (pending : Pending) (xs : List ℕ) (a hash : ℕ)
    → IsList pending (xs ++ (a ∷ []))
    → Lacks pending.store hash xs
    → id_of (pending.store a) ≡ some hash
    → (pending' : Pending) × (find_and_remove (suc pending.count) pending hash
        ≡ ok (some a, pending'))
      × IsList pending' xs
unfolding find_and_remove
find_and_remove-last pending xs a hash list lacks carried =
    let (pending', removed, list') = linklist_remove-IsList pending xs a [] list in
    let found : first_with pending.store hash (xs ++ (a ∷ [])) ≡ some a =
      Lacks-first_with pending.store hash xs (a ∷ []) lacks
      ∙ first_with-here pending.store a hash carried in
    let reached =
      find_lem (suc pending.count) pending.store hash none (xs ++ (a ∷ [])) pending.list_head
        pending.list_tail list.linked (omega (arith, list.counted))
      ∙ ap ok found in
    (pending', rw (reached, removed) refl, subst (IsList pending') (append-nil xs) list')

-- A request that is not in the list is not found.
pub find_and_remove-lacking :
    (pending : Pending) (xs : List ℕ) (hash : ℕ)
    → IsList pending xs
    → Lacks pending.store hash xs
    → find_and_remove (suc pending.count) pending hash ≡ ok (none, pending)
find_and_remove-lacking pending xs hash list lacks =
    find_and_remove-missing (suc pending.count) pending xs hash list (omega (arith, list.counted)) (
      ap (first_with pending.store hash) (sym (append-nil xs))
      ∙ Lacks-first_with pending.store hash xs [] lacks)
