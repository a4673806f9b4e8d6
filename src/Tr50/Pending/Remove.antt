-- ===== src/Tr50/Pending/Remove.antt =====
-- The search for a request, and its removal, against the list of addresses.
use mathlib.Core.Path.{subst}
use libtr.Base.{
  ℕ, zero, suc, ◌-◌, ◌<◌, ◌≡◌, refl, sym, ap, ◌∙◌, List, [], ◌∷◌, ◌++◌, Option, none, some, ◌==◌,
  if◌then◌else◌, length, length-append, Bool-cases, Option-cases, inl, inr, arith,
}
use libtr.Error.{ok}
use libtr.Tr50.Pending.{
  Message, Store, Pending, unlink_previous, unlink_next, linklist_remove, find, find_and_remove,
}
use libtr.Tr50.Pending.Segment.{Segment, Segment-frame, Segment-split, Segment-join}
use libtr.Tr50.Pending.Refine.{IsList}
use libtr.Tr50.Pending.Unlink.{
  Distinct-append, Distinct-without, same_at, unlink_previous-Segment, unlink_next-Segment,
}

remove_eq :
    (pending : Pending) (a : ℕ) (m : Message) (store1 store2 : Store) (head tail : Option ℕ)
    → pending.store a ≡ some m
    → unlink_previous pending.store pending.list_head m.pending_previous m.pending_next
      ≡ ok (store1, head)
    → unlink_next store1 pending.list_tail m.pending_previous m.pending_next ≡ ok (store2, tail)
    → linklist_remove pending a
      ≡ ok (record {
        store = store2;
        list_head = head;
        list_tail = tail;
        count = pending.count - 1;
        expired_count = pending.expired_count;
      })
unfolding linklist_remove
remove_eq pending a m store1 store2 head tail got first next =
    rw (got, linklist_remove) (rw (first, next) refl)

-- `_tr50_pending_linklist_remove` takes out the message, wherever it stands in the list, and the
-- others stay linked in their order.
pub linklist_remove-IsList :
    (pending : Pending) (xs : List ℕ) (a : ℕ) (ys : List ℕ)
    → IsList pending (xs ++ (a ∷ ys))
    → (pending' : Pending) × (linklist_remove pending a ≡ ok pending') × IsList pending' (xs ++ ys)
linklist_remove-IsList pending xs a ys list =
    let (middle, last, front, (first, m, got, prev, back)) =
      Segment-split pending.store none xs (a ∷ ys) none pending.list_head pending.list_tail
        list.linked in
    let (_, _, apart_xy, _) = Distinct-append xs ys (Distinct-without xs a ys list.distinct) in
    let (dx, (_, dy), _, (_, apart_y)) = Distinct-append xs (a ∷ ys) list.distinct in
    let front' =
      subst (λ l. Segment pending.store none xs middle pending.list_head l) (sym prev) front in
    let (store1, head, eq1, front1, frame1) =
      unlink_previous-Segment pending.store xs middle m.pending_next pending.list_head
        m.pending_previous front' dx in
    let back1 =
      Segment-frame pending.store store1 (some a) ys none m.pending_next pending.list_tail
        (same_at pending.store store1 xs ys frame1 apart_y) back in
    let (store2, tail, eq2, back2, frame2) =
      unlink_next-Segment store1 ys (some a) m.pending_previous m.pending_next pending.list_tail
        back1 dy in
    let front2 =
      Segment-frame store1 store2 none xs m.pending_next head m.pending_previous
        (same_at store1 store2 ys xs frame2 apart_xy) front1 in
    (
      record {
        store = store2;
        list_head = head;
        list_tail = tail;
        count = pending.count - 1;
        expired_count = pending.expired_count;
      },
      remove_eq pending a m store1 store2 head tail got eq1 eq2,
      record {
        linked =
            Segment-join store2 none xs ys none head tail m.pending_next m.pending_previous front2
              back2;
        distinct = Distinct-without xs a ys list.distinct;
        counted = omega (arith, list.counted, length-append xs (a ∷ ys), length-append xs ys);
      },
    )

-- The first of the messages with the identifier.
abbrev pub first_with : Store → ℕ → List ℕ → Option ℕ
first_with store hash [] = none
first_with store hash (a ∷ xs) = elim (store a) [
  | none ↦ none
  | some m ↦ if m.seq_id == hash then some a else first_with store hash xs
]

pub find_lem :
    (fuel : ℕ) (store : Store) (hash : ℕ) (previous : Option ℕ) (xs : List ℕ) (head tail : Option ℕ)
    → Segment store previous xs none head tail
    → length xs < fuel
    → find fuel store hash head ≡ ok (first_with store hash xs)
unfolding find
find_lem zero store hash previous xs head tail seg enough = absurd (omega arith)
find_lem (suc fuel) store hash previous [] head tail (first, end) enough =
    ap (λ h. find (suc fuel) store hash h) first
find_lem (suc fuel) store hash previous (a ∷ xs) head tail (first, m, got, prev, seg) enough =
    let rest = find_lem fuel store hash (some a) xs m.pending_next tail seg (omega arith) in
    ap (λ h. find (suc fuel) store hash h) first ∙ elim (Bool-cases (m.seq_id == hash)) [
      | inl same ↦ ground (arith, got, same)
      | inr other ↦ ground (arith, got, other, rest)
    ]

first_with-split :
    (store : Store) (hash : ℕ) (xs : List ℕ) (a : ℕ)
    → first_with store hash xs ≡ some a
    → (pre : List ℕ) × (post : List ℕ) × (xs ≡ pre ++ (a ∷ post))
      × (first_with store hash pre ≡ none)
first_with-split store hash [] a e = cc
first_with-split store hash (x ∷ xs) a e = elim (Option-cases (store x)) [
  | inl gone ↦ ground (arith, gone)
  | inr (m, got) ↦ elim (Bool-cases (m.seq_id == hash)) [
    | inl same ↦
        let here : x ≡ a = ground (arith, got, same) in ([], xs, ap (λ t. t ∷ xs) here, refl)
    | inr other ↦
        let behind : first_with store hash xs ≡ some a = ground (arith, got, other) in
        let (pre, post, parts, none_first) = first_with-split store hash xs a behind in
        (x ∷ pre, post, ap (λ t. x ∷ t) parts, ground (arith, got, other, none_first))
  ]
]

-- Where the list is well linked, a message has the identifier and the fuel is above the length of
-- the list, `tr50_pending_find_and_remove` returns the first message that has it; the others stay
-- in the list, well linked and in their order.
pub find_and_remove-found :
    (fuel : ℕ) (pending : Pending) (xs : List ℕ) (hash a : ℕ)
    → IsList pending xs
    → length xs < fuel
    → first_with pending.store hash xs ≡ some a
    → (pre : List ℕ) × (post : List ℕ) × (pending' : Pending) × (xs ≡ pre ++ (a ∷ post))
      × (first_with pending.store hash pre ≡ none)
      × (find_and_remove fuel pending hash ≡ ok (some a, pending'))
      × IsList pending' (pre ++ post)
unfolding find_and_remove
find_and_remove-found fuel pending xs hash a list enough found =
    let (pre, post, parts, none_first) = first_with-split pending.store hash xs a found in
    let (pending', removed, list') =
      linklist_remove-IsList pending pre a post (subst (IsList pending) parts list) in
    let reached =
      find_lem fuel pending.store hash none xs pending.list_head pending.list_tail list.linked
        enough
      ∙ ap ok found in
    (pre, post, pending', parts, none_first, rw (reached, removed) refl, list')

-- Where the list is well linked, no message has the identifier and the fuel is above the length of
-- the list, `tr50_pending_find_and_remove` returns NULL and changes nothing.
pub find_and_remove-missing :
    (fuel : ℕ) (pending : Pending) (xs : List ℕ) (hash : ℕ)
    → IsList pending xs
    → length xs < fuel
    → first_with pending.store hash xs ≡ none
    → find_and_remove fuel pending hash ≡ ok (none, pending)
unfolding find_and_remove
find_and_remove-missing fuel pending xs hash list enough missing =
    let reached =
      find_lem fuel pending.store hash none xs pending.list_head pending.list_tail list.linked
        enough
      ∙ ap ok missing in
    rw reached refl
