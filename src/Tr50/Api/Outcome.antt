-- ===== src/Tr50/Api/Outcome.antt =====
-- Who owns the message of a call when the call returns.
use mathlib.Core.Path.{subst}
use libtr.Base.{
  All, true, ℕ, suc, ◌≡◌, refl, ap, ◌∙◌, List, [], ◌∷◌, ◌++◌, append-nil, Option, none, some, Bool,
  false, if◌then◌else◌, Bool-cases, inl, inr, arith,
}
use libtr.Base.Int.{ℤ, is_zero}
use libtr.Error.{ok, ◌>>=◌}
use libtr.Memory.{Malloc}
use libtr.Mqtt.Net.{Net}
use libtr.Tr50.Client.{Client, Handle}
use libtr.Tr50.Pending.{Message, Store, Pending, find_and_remove, sweep, deleted}
use libtr.Tr50.Pending.Delete.{deleted-IsList, deleted-kept}
use libtr.Tr50.Pending.Refine.{IsList}
use libtr.Tr50.Pending.Sweep.{over_of, is_over, over, waiting, sweep-over}
use libtr.Tr50.Pending.Search.{
  id_of, Lacks, Lacks-alike, Lacks-waiting, waiting-append, swept-id_of, find_and_remove-last,
  find_and_remove-lacking,
}
use libtr.Tr50.Api.Call.{publish_on, publish_waiting, sweep_at, time_out}

-- What a sweep leaves of a list, and whether it takes out a message.
abbrev pub kept_at : Option ℕ → Store → List ℕ → List ℕ
kept_at none store xs = xs
kept_at (some now) store xs = waiting (is_over now store) xs

abbrev pub due_at : Option ℕ → Option Message → Bool
due_at none m = false
due_at (some now) m = over_of now m

sweep_at_eq :
    (now : ℕ) (client : Client) (pending : Pending) (gone : List ℕ)
    → sweep (suc client.pending.count) now client.pending client.pending.list_head
      ≡ ok (pending, gone)
    → sweep_at (some now) client
      ≡ ok (record (time_out client pending.store gone) { pending = deleted pending gone })
unfolding sweep_at
sweep_at_eq now client pending gone run = rw run refl

-- A sweep leaves the requests whose time is not over, with their identifiers.
pub sweep_at_lem :
    (meanwhile : Option ℕ) (client : Client) (xs : List ℕ)
    → IsList client.pending xs
    → (client' : Client) × (sweep_at meanwhile client ≡ ok client')
      × IsList client'.pending (kept_at meanwhile client.pending.store xs)
      × ((b : ℕ)
          → due_at meanwhile (client.pending.store b) ≡ false
          → id_of (client'.pending.store b) ≡ id_of (client.pending.store b))
unfolding sweep_at
sweep_at_lem none client xs list = (client, refl, list, λ b early. refl)
sweep_at_lem (some now) client xs list =
    let test = is_over now client.pending.store in
    let gone = over test xs in
    let (pending, run, list') =
      sweep-over (suc client.pending.count) now client.pending xs list
        (omega (arith, list.counted)) in
    (
      record (time_out client pending.store gone) { pending = deleted pending gone },
      sweep_at_eq now client pending gone run,
      deleted-IsList test pending xs list',
      λ b early.
          ap id_of (deleted-kept test pending xs b early)
          ∙ swept-id_of (suc client.pending.count) now client.pending pending
              client.pending.list_head gone run b,
    )

-- The requests that a sweep leaves are as they were to a search.
kept_at-alike :
    (meanwhile : Option ℕ) (store store' : Store) (xs : List ℕ)
    → ((b : ℕ) → due_at meanwhile (store b) ≡ false → id_of (store' b) ≡ id_of (store b))
    → All (λ b. id_of (store' b) ≡ id_of (store b)) (kept_at meanwhile store xs)
kept_at-alike none store store' [] same = tt
kept_at-alike none store store' (a ∷ xs) same =
    (same a refl, kept_at-alike none store store' xs same)
kept_at-alike (some now) store store' [] same = tt
kept_at-alike (some now) store store' (a ∷ xs) same = elim (Bool-cases (is_over now store a)) [
  | inl due ↦ rw due (kept_at-alike (some now) store store' xs same)
  | inr early ↦ rw early (same a early, kept_at-alike (some now) store store' xs same)
]

Lacks-kept_at :
    (meanwhile : Option ℕ) (store : Store) (hash : ℕ) (xs : List ℕ)
    → Lacks store hash xs
    → Lacks store hash (kept_at meanwhile store xs)
Lacks-kept_at none store hash xs lacks = lacks
Lacks-kept_at (some now) store hash xs lacks = Lacks-waiting store hash (is_over now store) xs lacks

kept_at-snoc :
    (meanwhile : Option ℕ) (store : Store) (xs : List ℕ) (a : ℕ)
    → kept_at meanwhile store (xs ++ (a ∷ []))
      ≡ kept_at meanwhile store xs ++ (if due_at meanwhile (store a) then [] else a ∷ [])
kept_at-snoc none store xs a = refl
kept_at-snoc (some now) store xs a = waiting-append (is_over now store) xs (a ∷ [])

module _ {W : Type 0} (net : Net W) (malloc : Malloc) where
  publish_refused_eq :
      (client swept : Client) (seq_id : ℕ) (topic payload : List ℕ) (meanwhile : Option ℕ)
      (thread : ℕ) (w w' : W) (ret : ℤ) (mqtt : Handle) (found : Option ℕ) (pending : Pending)
      → publish_on net malloc client.mqtt topic payload thread w ≡ ok (ret, mqtt, w')
      → is_zero ret ≡ false
      → sweep_at meanwhile (record client { mqtt = mqtt }) ≡ ok swept
      → find_and_remove (suc swept.pending.count) swept.pending seq_id ≡ ok (found, pending)
      → publish_waiting net malloc client seq_id topic payload meanwhile thread w
        ≡ ok (ret, record swept { pending = pending }, found, w')
  unfolding publish_waiting
  publish_refused_eq client swept seq_id topic payload meanwhile thread w w' ret mqtt found pending
        sent bad run gone =
      rw (sent, publish_waiting) (rw (run, ◌>>=◌) (rw bad (rw gone refl)))

  -- A publication that succeeds leaves the message to the list, and the list to the sweep.
  pub publish_sent :
      (client : Client) (xs : List ℕ) (a seq_id : ℕ) (topic payload : List ℕ) (meanwhile : Option ℕ)
      (thread : ℕ) (w w' : W) (ret : ℤ) (mqtt : Handle)
      → IsList client.pending (xs ++ (a ∷ []))
      → publish_on net malloc client.mqtt topic payload thread w ≡ ok (ret, mqtt, w')
      → is_zero ret ≡ true
      → (client' : Client) × (publish_waiting net malloc client seq_id topic payload meanwhile
            thread w
          ≡ ok (ret, client', none, w'))
        × IsList client'.pending (
            kept_at meanwhile client.pending.store xs
            ++ (if due_at meanwhile (client.pending.store a) then [] else a ∷ []))
  unfolding publish_waiting
  publish_sent client xs a seq_id topic payload meanwhile thread w w' ret mqtt list sent good =
      let store = client.pending.store in
      let (swept, run, list1, same) =
        sweep_at_lem meanwhile (record client { mqtt = mqtt }) (xs ++ (a ∷ [])) list in
      (
        swept,
        rw (sent, publish_waiting) (rw (run, ◌>>=◌) (rw good refl)),
        subst (IsList swept.pending) (kept_at-snoc meanwhile store xs a) list1,
      )

  -- A publication that fails takes the message out of the list, unless a sweep has done so.
  pub publish_refused :
      (client : Client) (xs : List ℕ) (a seq_id : ℕ) (topic payload : List ℕ) (meanwhile : Option ℕ)
      (thread : ℕ) (w w' : W) (ret : ℤ) (mqtt : Handle)
      → IsList client.pending (xs ++ (a ∷ []))
      → Lacks client.pending.store seq_id xs
      → id_of (client.pending.store a) ≡ some seq_id
      → publish_on net malloc client.mqtt topic payload thread w ≡ ok (ret, mqtt, w')
      → is_zero ret ≡ false
      → (client' : Client) × (publish_waiting net malloc client seq_id topic payload meanwhile
            thread w
          ≡ ok (
            ret,
            client',
            (if due_at meanwhile (client.pending.store a) then none else some a),
            w',
          ))
        × IsList client'.pending (kept_at meanwhile client.pending.store xs)
  publish_refused client xs a seq_id topic payload meanwhile thread w w' ret mqtt list lacks carried
        sent bad =
      let store = client.pending.store in
      let (swept, run, list1, same) =
        sweep_at_lem meanwhile (record client { mqtt = mqtt }) (xs ++ (a ∷ [])) list in
      let list2 = subst (IsList swept.pending) (kept_at-snoc meanwhile store xs a) list1 in
      let lacks' =
        Lacks-alike store swept.pending.store seq_id (kept_at meanwhile store xs)
          (kept_at-alike meanwhile store swept.pending.store xs same)
          (Lacks-kept_at meanwhile store seq_id xs lacks) in
      elim (Bool-cases (due_at meanwhile (store a))) [
        | inl due ↦
            let list3 =
              subst (IsList swept.pending)
                (ap (λ b. kept_at meanwhile store xs ++ (if b then [] else a ∷ [])) due
                  ∙ append-nil (kept_at meanwhile store xs))
                list2 in
            let gone =
              find_and_remove-lacking swept.pending (kept_at meanwhile store xs) seq_id list3
                lacks' in
            rw due (
              record swept { pending = swept.pending },
              publish_refused_eq client swept seq_id topic payload meanwhile thread w w' ret mqtt
                  none swept.pending sent bad run gone,
              list3,
            )
        | inr early ↦
            let list3 =
              subst (IsList swept.pending)
                (ap (λ b. kept_at meanwhile store xs ++ (if b then [] else a ∷ [])) early) list2 in
            let (pending, gone, list4) =
              find_and_remove-last swept.pending (kept_at meanwhile store xs) a seq_id list3 lacks'
                (same a early ∙ carried) in
            rw early (
              record swept { pending = pending },
              publish_refused_eq client swept seq_id topic payload meanwhile thread w w' ret mqtt
                  (some a) pending sent bad run gone,
              list4,
            )
      ]
