-- ===== src/Tr50/Pending/Keeps.antt =====
-- Writes of pointers keep what else is seen of each message.
use mathlib.Core.Path.{subst}
use libtr.Base.{
  ℕ, ◌≡◌, refl, sym, ap, ◌∙◌, Option, none, some, true, false, ◌==◌, Bool-cases, Option-cases, inl,
  inr, arith,
}
use libtr.Error.{Holds-bind, ok, Holds, Holds-then}
use libtr.Tr50.Pending.{
  find, find_and_remove, Message, Store, write, modify, Pending, set_next, set_previous, stamped,
  add, unlink_previous, unlink_next, linklist_remove,
}

write_at :
    (store : Store) (a : ℕ) (m : Message) (b : ℕ) → (a == b) ≡ true → write store a m b ≡ some m
write_at store a m b h = rw h refl

write_beside :
    (store : Store) (a : ℕ) (m : Message) (b : ℕ) → (a == b) ≡ false → write store a m b ≡ store b
write_beside store a m b h = rw h refl

stamp_eq :
    (store : Store) (message now : ℕ) (m : Message)
    → store message ≡ some m
    → modify store message (stamped now) ≡ ok (write store message (stamped now m))
unfolding modify
stamp_eq store message now m got = rw (got, modify) refl

-- `view` shows something of a message other than its pointers.
module _ {A : Type 0} (view : Option Message → A) where
  pub modify-view :
      (store : Store) (a : ℕ) (f : Message → Message)
      → ((m : Message) → view (some (f m)) ≡ view (some m))
      → Holds (λ store'. (b : ℕ) → view (store' b) ≡ view (store b)) (modify store a f)
  unfolding modify
  modify-view store a f keeps = elim (Option-cases (store a)) [
    | inl gone ↦ rw (gone, modify) tt
    | inr (m, got) ↦
        rw (got, modify)
          (λ b. elim (Bool-cases (a == b)) [
            | inl same ↦
                let here : a ≡ b = ground (arith, same) in
                let got_b : store b ≡ some m = subst (λ c. store c ≡ some m) here got in
                ap view (write_at store a (f m) b same) ∙ (keeps m ∙ sym (ap view got_b))
            | inr other ↦ ap view (write_beside store a (f m) b other)
          ])
  ]

module _ {A : Type 0} (view : Option Message → A)
    (keeps_next : (m : Message) (p : Option ℕ) → view (some (set_next p m)) ≡ view (some m))
    (keeps_previous : (m : Message) (p : Option ℕ)
      → view (some (set_previous p m)) ≡ view (some m)) where
  unlink_previous-view :
      (store : Store) (head previous next : Option ℕ)
      → Holds
          (λ (store', head'). (b : ℕ) → view (store' b) ≡ view (store b))
          (unlink_previous store head previous next)
  unfolding unlink_previous
  unlink_previous-view store head none next = λ b. refl
  unlink_previous-view store head (some p) next =
      Holds-then (λ store'. (b : ℕ) → view (store' b) ≡ view (store b)) _
        (modify store p (set_next next)) _
        (modify-view view store p (set_next next) (λ m. keeps_next m next)) (λ store' h. h)

  unlink_next-view :
      (store : Store) (tail previous next : Option ℕ)
      → Holds
          (λ (store', tail'). (b : ℕ) → view (store' b) ≡ view (store b))
          (unlink_next store tail previous next)
  unfolding unlink_next
  unlink_next-view store tail previous none = λ b. refl
  unlink_next-view store tail previous (some n) =
      Holds-then (λ store'. (b : ℕ) → view (store' b) ≡ view (store b)) _
        (modify store n (set_previous previous)) _
        (modify-view view store n (set_previous previous) (λ m. keeps_previous m previous))
        (λ store' h. h)

  pub linklist_remove-view :
      (pending : Pending) (a : ℕ)
      → Holds
          (λ pending'. (b : ℕ) → view (pending'.store b) ≡ view (pending.store b))
          (linklist_remove pending a)
  unfolding linklist_remove
  linklist_remove-view pending a = elim (Option-cases (pending.store a)) [
    | inl gone ↦ rw (gone, linklist_remove) tt
    | inr (m, got) ↦
        rw (got, linklist_remove)
          (Holds-then (λ (store', head'). (b : ℕ) → view (store' b) ≡ view (pending.store b)) _
            (unlink_previous pending.store pending.list_head m.pending_previous m.pending_next) _
            (unlink_previous-view pending.store pending.list_head m.pending_previous m.pending_next)
            (λ (store1, head1) h1.
              Holds-then (λ (store', tail'). (b : ℕ) → view (store' b) ≡ view (store1 b)) _
                (unlink_next store1 pending.list_tail m.pending_previous m.pending_next) _
                (unlink_next-view store1 pending.list_tail m.pending_previous m.pending_next)
                (λ (store2, tail2) h2 b. h2 b ∙ h1 b)))
  ]

  -- A removal that took place keeps the view of each message.
  pub removed_view :
      (pending pending' : Pending) (a : ℕ)
      → linklist_remove pending a ≡ ok pending'
      → (b : ℕ) → view (pending'.store b) ≡ view (pending.store b)
  removed_view pending pending' a removed =
      subst (Holds (λ p. (b : ℕ) → view (p.store b) ≡ view (pending.store b))) removed
        (linklist_remove-view pending a)

  add-view :
      (pending : Pending) (message now : ℕ) (m : Message)
      → pending.store message ≡ some m
      → Holds
          (λ p. (b : ℕ) → view (p.store b) ≡ view (write pending.store message (stamped now m) b))
          (add pending message now)
  unfolding add
  add-view pending message now m got =
      let store1 : Store = write pending.store message (stamped now m) in
      let stamp = stamp_eq pending.store message now m got in
      elim (Option-cases pending.list_tail) [
        | inl empty ↦ rw (stamp, add) (rw empty (λ b. refl))
        | inr (tail, last) ↦
            rw (stamp, add)
              (rw last (
                Holds-then (λ store'. (b : ℕ) → view (store' b) ≡ view (store1 b)) _
                  (modify store1 tail (set_next (some message))) _
                  (modify-view view store1 tail (set_next (some message))
                    (λ m. keeps_next m (some message)))
                  (λ store2 h2.
                    Holds-then (λ store'. (b : ℕ) → view (store' b) ≡ view (store2 b)) _
                      (modify store2 message (set_previous (some tail))) _
                      (modify-view view store2 message (set_previous (some tail))
                        (λ m. keeps_previous m (some tail)))
                      (λ store3 h3 b. h3 b ∙ h2 b))))
      ]

  -- So does an addition, but for the two times of the message.
  pub added_view :
      (pending pending' : Pending) (message now : ℕ) (m : Message)
      → pending.store message ≡ some m
      → add pending message now ≡ ok pending'
      → (b : ℕ) → view (pending'.store b) ≡ view (write pending.store message (stamped now m) b)
  added_view pending pending' message now m got added =
      subst
        (Holds
          (λ p. (b : ℕ) → view (p.store b) ≡ view (write pending.store message (stamped now m) b)))
        added (add-view pending message now m got)

  find_and_remove-view :
      (fuel : ℕ) (pending : Pending) (hash : ℕ)
      → Holds
          (λ (found, pending'). (b : ℕ) → view (pending'.store b) ≡ view (pending.store b))
          (find_and_remove fuel pending hash)
  unfolding find_and_remove
  find_and_remove-view fuel pending hash =
      Holds-bind (λ (found, pending'). (b : ℕ) → view (pending'.store b) ≡ view (pending.store b))
        (find fuel pending.store hash pending.list_head) _
        (λ found e. elim (Option-cases found) [
          | inl missing ↦ rw missing (λ b. refl)
          | inr (ptr, got) ↦ rw got (
              Holds-then (λ p. (b : ℕ) → view (p.store b) ≡ view (pending.store b)) _
                (linklist_remove pending ptr) _ (linklist_remove-view pending ptr) (λ p h. h))
        ])

  pub found_view :
      (fuel : ℕ) (pending pending' : Pending) (hash : ℕ) (found : Option ℕ)
      → find_and_remove fuel pending hash ≡ ok (found, pending')
      → (b : ℕ) → view (pending'.store b) ≡ view (pending.store b)
  found_view fuel pending pending' hash found run =
      subst (Holds (λ (f, p). (b : ℕ) → view (p.store b) ≡ view (pending.store b))) run
        (find_and_remove-view fuel pending hash)
