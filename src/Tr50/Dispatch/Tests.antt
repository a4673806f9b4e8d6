-- ===== src/Tr50/Dispatch/Tests.antt =====
-- Runs of the dispatch of commands and methods, and the theorems at concrete inputs.
use libtr.Tr50.Dispatch.Names.{search_entry-unterminated, search_entry-register}
use libtr.Tr50.Dispatch.Laws.{process_items-effects, all_effects}
use libtr.Tr50.Client.Handlers.{starts_with, same_text}
use libtr.Tr50.Dispatch.{
  fault, err_tr50_cmd_unknown, acked, search_entry, method_exec, ok, ran, register, Entry, pos,
  Item, new_entry, process_items, Registry,
}
use libtr.Base.{
  arith, ◌++◌, if◌then◌else◌, take, some, true, suc, none, ◌≡◌, ◌∷◌, Option, [], List, ℕ, refl,
  zero,
}

abbrev reset : List ℕ
reset = 114 ∷ 101 ∷ []

abbrev ping : List ℕ
ping = 112 ∷ 105 ∷ []

abbrev two_commands : List Entry
two_commands = new_entry ping 2 ∷ new_entry reset 1 ∷ []

abbrev registry : Registry
registry = record {
  command_head = two_commands;
  method_head = new_entry ping 7 ∷ [];
  method_registration_inuse = true;
}

abbrev item : List ℕ → Option (List ℕ) → Item
item command method = record {
  id = some (49 ∷ []);
  thing_key = some (50 ∷ []);
  command = some command;
  method = method;
}

-- A command, a method, an unknown command, and a call without a name.
abbrev four_items : List Item
four_items =
    item reset none
    ∷ item method_exec (some ping)
    ∷ item (120 ∷ []) none
    ∷ item method_exec none
    ∷ []

process_items-effects_example :
    process_items (λ n. pos 0) registry four_items ≡ ok (all_effects registry four_items)
process_items-effects_example =
    process_items-effects (λ n. pos 0) registry four_items (refl, (refl, tt)) (refl, tt)

effects_of_four :
    all_effects registry four_items ≡ ran 1 ∷ ran 7 ∷ acked (49 ∷ []) err_tr50_cmd_unknown ∷ []
unfolding same_text starts_with
effects_of_four = refl

search_entry-register_example :
    (entries' : List Entry) × (register true two_commands reset 9 ≡ ok entries')
    × (search_entry entries' reset
        ≡ (if same_text reset reset then ok (some 9) else search_entry two_commands reset))
search_entry-register_example = search_entry-register two_commands reset reset 9 (omega arith)

abbrev repeated : ℕ → List ℕ
repeated zero = []
repeated (suc n) = 97 ∷ repeated n

search_entry-unterminated_example :
    (entries' : List Entry) × (register true two_commands (repeated 70) 9 ≡ ok entries')
    × (search_entry entries' (take 64 (repeated 70) ++ ping) ≡ fault)
search_entry-unterminated_example =
    search_entry-unterminated two_commands (repeated 70) ping 9 (omega arith)
