-- ===== src/Tr50/Pending/Tests.antt =====
-- Two requests that wait, the second with a time that is over, and a third one that is added.
use libtr.Base.{ℕ, ◌≡◌, refl, List, [], ◌∷◌, ◌++◌, none, some, arith}
use libtr.Error.{ok}
use libtr.Tr50.Pending.{obj, Message, write, Pending, find_and_remove, sweep}
use libtr.Tr50.Pending.Refine.{IsList}
use libtr.Tr50.Pending.Remove.{first_with, find_and_remove-found}
use libtr.Tr50.Pending.Sweep.{is_over, over, waiting, sweep-over}

abbrev first : Message
first = record {
  seq_id = 70;
  pending_sent_timestamp = 0;
  pending_expiration_timestamp = 9000;
  pending_previous = none;
  pending_next = some 2;
  callback_timeout = 9000;
  message_type = obj;
  callback_custom = 0;
  raw_callback = none;
  reply_callback = some 8;
}

abbrev second : Message
second = record {
  seq_id = 71;
  pending_sent_timestamp = 0;
  pending_expiration_timestamp = 1000;
  pending_previous = some 1;
  pending_next = none;
  callback_timeout = 1000;
  message_type = obj;
  callback_custom = 0;
  raw_callback = none;
  reply_callback = some 8;
}

abbrev fresh : Message
fresh = record {
  seq_id = 72;
  pending_sent_timestamp = 0;
  pending_expiration_timestamp = 0;
  pending_previous = none;
  pending_next = none;
  callback_timeout = 500;
  message_type = obj;
  callback_custom = 0;
  raw_callback = none;
  reply_callback = some 8;
}

abbrev two : Pending
two = record {
  store = write (write (write (λ b. none) 3 fresh) 2 second) 1 first;
  list_head = some 1;
  list_tail = some 2;
  count = 2;
  expired_count = 0;
}

two-IsList : IsList two (1 ∷ 2 ∷ [])
two-IsList = record {
  linked = (refl, first, refl, refl, (refl, second, refl, refl, (refl, refl)));
  distinct = ((refl, tt), (tt, tt));
  counted = refl;
}

find_and_remove-found_example :
    (pre : List ℕ) × (post : List ℕ) × (pending : Pending) × (1 ∷ 2 ∷ [] ≡ pre ++ (2 ∷ post))
    × (first_with two.store 71 pre ≡ none)
    × (find_and_remove 3 two 71 ≡ ok (some 2, pending))
    × IsList pending (pre ++ post)
find_and_remove-found_example =
    find_and_remove-found 3 two (1 ∷ 2 ∷ []) 71 2 two-IsList (omega arith) refl

sweep-over_example :
    (pending : Pending) × (sweep 3 5000 two (some 1)
      ≡ ok (pending, over (is_over 5000 two.store) (1 ∷ 2 ∷ [])))
    × IsList pending (waiting (is_over 5000 two.store) (1 ∷ 2 ∷ []))
sweep-over_example = sweep-over 3 5000 two (1 ∷ 2 ∷ []) two-IsList (omega arith)
