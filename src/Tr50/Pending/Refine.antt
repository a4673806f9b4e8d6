-- ===== src/Tr50/Pending/Refine.antt =====
-- The operations on the linked list are those on a list of addresses.
use mathlib.Core.Path.{subst}
use libtr.Base.{
  ◌⊎◌, ℕ, ◌+◌, ◌≡◌, refl, sym, List, [], ◌∷◌, ◌++◌, none, some, false, ◌==◌, length, length-append,
  inl, inr, arith,
}
use libtr.Error.{ok}
use libtr.Tr50.Pending.{
  Message, Store, write, modify, Pending, stamped, set_next, set_previous, add,
}
use libtr.Tr50.Pending.Segment.{
  Segment, NotIn, Distinct, Segment-frame, Segment-join, write-same, write-here, Distinct-snoc,
  snoc-Distinct, NotIn-snoc, snoc_cases, set_next-last,
}

-- The list holds the messages at these addresses, in this order, each once.
pub record IsList (pending : Pending) (xs : List ℕ) : Type 0 where
  pub linked : Segment pending.store none xs none pending.list_head pending.list_tail
  pub distinct : Distinct xs
  pub counted : pending.count ≡ length xs

pub modify-some :
    (store : Store) (a : ℕ) (m : Message) (f : Message → Message)
    → store a ≡ some m
    → modify store a f ≡ ok (write store a (f m))
unfolding modify
modify-some store a m f got = rw (got, modify) refl

add_eq-empty :
    (pending : Pending) (a : ℕ) (m : Message) (now : ℕ)
    → pending.store a ≡ some m
    → pending.list_tail ≡ none
    → add pending a now
      ≡ ok (record {
        store = write pending.store a (stamped now m);
        list_head = some a;
        list_tail = some a;
        count = pending.count + 1;
        expired_count = pending.expired_count;
      })
unfolding add modify
add_eq-empty pending a m now got empty = ground (arith, got, empty)

add_eq-more :
    (pending : Pending) (a t : ℕ) (m mt : Message) (now : ℕ)
    → pending.store a ≡ some m
    → pending.list_tail ≡ some t
    → write pending.store a (stamped now m) t ≡ some mt
    → (t == a) ≡ false
    → add pending a now
      ≡ ok (record {
        store =
            write
              (write (write pending.store a (stamped now m)) t (set_next (some a) mt))
              a
              (set_previous (some t) (stamped now m));
        list_head = pending.list_head;
        list_tail = some a;
        count = pending.count + 1;
        expired_count = pending.expired_count;
      })
unfolding add
add_eq-more pending a t m mt now got tail got_t apart =
    let store1 = write pending.store a (stamped now m) in
    let store2 = write store1 t (set_next (some a) mt) in
    let here : store2 a ≡ some (stamped now m) = ground (arith, apart) in
    let e1 = modify-some pending.store a m (stamped now) got in
    let e2 = modify-some store1 t mt (set_next (some a)) got_t in
    let e3 = modify-some store2 a (stamped now m) (set_previous (some t)) here in
    rw (e1, tail, e2, e3) refl

add-IsList-snoc :
    (pending : Pending) (ys : List ℕ) (t a : ℕ) (m : Message) (now : ℕ)
    → IsList pending (ys ++ (t ∷ []))
    → NotIn a (ys ++ (t ∷ []))
    → pending.store a ≡ some m
    → m.pending_next ≡ none
    → (pending' : Pending) × (add pending a now ≡ ok pending')
      × IsList pending' ((ys ++ (t ∷ [])) ++ (a ∷ []))
add-IsList-snoc pending ys t a m now list out got no_next =
    let xs = ys ++ (t ∷ []) in
    let m1 = stamped now m in
    let m3 = set_previous (some t) m1 in
    let store1 = write pending.store a m1 in
    let head = pending.list_head in
    let (_, other) = NotIn-snoc a ys t out in
    let apart : (t == a) ≡ false = ground (arith, other) in
    let seg1 =
      Segment-frame pending.store store1 none xs none head pending.list_tail
        (write-same pending.store a m1 xs out) list.linked in
    let (once, _) = Distinct-snoc ys t list.distinct in
    let (mt, got_t, end, seg2) =
      set_next-last store1 none ys t none (some a) head pending.list_tail once seg1 in
    let store2 = write store1 t (set_next (some a) mt) in
    let store3 = write store2 a m3 in
    let seg3 =
      Segment-frame store2 store3 none xs (some a) head (some t) (write-same store2 a m3 xs out)
        seg2 in
    (
      record {
        store = store3;
        list_head = head;
        list_tail = some a;
        count = pending.count + 1;
        expired_count = pending.expired_count;
      },
      add_eq-more pending a t m mt now got end got_t apart,
      record {
        linked =
            Segment-join store3 none xs (a ∷ []) none head (some a) (some a) (some t) seg3
              (refl, m3, write-here store2 a m3, refl, (no_next, refl));
        distinct = snoc-Distinct xs a out list.distinct;
        counted = omega (arith, list.counted, length-append xs (a ∷ []));
      },
    )

-- `tr50_pending_add` appends the message, and the list stays well linked; the message's pointers
-- have to be NULL, as those of a fresh message are, and it must not be in the list already.
pub add-IsList :
    (pending : Pending) (xs : List ℕ) (a : ℕ) (m : Message) (now : ℕ)
    → IsList pending xs
    → NotIn a xs
    → pending.store a ≡ some m
    → m.pending_previous ≡ none
    → m.pending_next ≡ none
    → (pending' : Pending) × (add pending a now ≡ ok pending') × IsList pending' (xs ++ (a ∷ []))
add-IsList pending xs a m now list out got no_prev no_next = go xs (snoc_cases xs) list out
  where
    store1 : Store
    store1 = write pending.store a (stamped now m)

    go :
        (xs : List ℕ)
        → (xs ≡ []) ⊎ ((ys : List ℕ) × (t : ℕ) × (xs ≡ ys ++ (t ∷ [])))
        → IsList pending xs
        → NotIn a xs
        → (pending' : Pending) × (add pending a now ≡ ok pending')
          × IsList pending' (xs ++ (a ∷ []))
    go [] _ list out = (
      _,
      add_eq-empty pending a m now got list.linked.1,
      record {
        linked = (
          refl,
          stamped now m,
          write-here pending.store a (stamped now m),
          no_prev,
          (no_next, refl),
        );
        distinct = (tt, tt);
        counted = omega (arith, list.counted);
      },
    )
    go (x ∷ xs) (inl e) list out = cc
    go (x ∷ xs) (inr (ys, t, e)) list out =
        let (pending', eq, list') =
          add-IsList-snoc pending ys t a m now (subst (IsList pending) e list)
            (subst (NotIn a) e out) got no_next in
        (pending', eq, subst (λ zs. IsList pending' (zs ++ (a ∷ []))) (sym e) list')
