-- ===== src/Tr50/Dispatch.antt =====
-- The commands and methods of the application, and the items of the mailbox that call them:
-- tr50.command.c, tr50.method.c and the loop of `_tr50_mailbox_check_callback` in tr50.mailbox.c.
-- What a callback returns is given by `run`; what an acknowledgement sends is left to the calls.
pub mod Laws
pub mod Names
mod Tests
use libtr.Base.{
  ℕ, ◌+◌, List, [], ◌∷◌, ◌++◌, Option, none, some, Bool, true, false, ◌&&◌, ◌==◌, ltb, length, take,
  if◌then◌else◌,
}
use libtr.Base.Int.{ℤ, pos}
use libtr.Error.{Res, ok, fault, ◌>>=◌, err_tr50_cmd_unknown, err_tr50_method_unknown}
use libtr.Tr50.Client.Handlers.{starts_with, same_text}

-- `TR50_COMMAND_NAME_LEN` and `TR50_METHOD_NAME_LEN`.
abbrev pub name_len : ℕ
name_len = 64

-- `_TR50_COMMAND` and `_TR50_METHOD`: what stands in the array of 64 bytes, and whether a terminator
-- stands there too.
pub record Entry : Type 0 where
  pub name : List ℕ
  pub terminated : Bool
  pub callback : ℕ

-- What `strncpy(command->name, cmd, 64)` leaves in the cleared array.
abbrev pub new_entry : List ℕ → ℕ → Entry
new_entry name callback = record {
  name = take name_len name;
  terminated = ltb (length name) name_len;
  callback = callback;
}

-- `tr50_command_register` and the list part of `tr50_method_register`: the new entry stands first.
-- `granted` tells whether `malloc` succeeds, which is not looked at.
unfoldable pub register : Bool → List Entry → List ℕ → ℕ → Res (List Entry)
register false entries name callback = fault
register true entries name callback = ok (new_entry name callback ∷ entries)

-- `strcmp(entry->name, text) == 0`, which reads behind the array where no terminator stands in it
-- and the text goes on like the array.
unfoldable pub name_matches : Entry → List ℕ → Res Bool
unfolding same_text starts_with
name_matches entry text =
    if entry.terminated
    then ok (same_text entry.name text)
    else if starts_with entry.name text
    then fault
    else ok false

-- The loops over the list: the callback of the first entry with the name.
unfoldable pub search_entry : List Entry → List ℕ → Res (Option ℕ)
unfolding name_matches
search_entry [] text = ok none
search_entry (entry ∷ entries) text = do
  found ← name_matches entry text
  elim found [ true ↦ ok (some entry.callback) | false ↦ search_entry entries text ]

-- What an item leads to.
pub data Effect : Type 0 where
  -- A callback of the application was called.
  ran : ℕ → Effect
  -- `tr50_command_ack` or `tr50_method_ack` with the identifier of the item and a status.
  acked : List ℕ → ℤ → Effect

-- "method.exec".
abbrev pub method_exec : List ℕ
method_exec = 109 ∷ 101 ∷ 116 ∷ 104 ∷ 111 ∷ 100 ∷ 46 ∷ 101 ∷ 120 ∷ 101 ∷ 99 ∷ []

-- The commands and methods of a client, and `method_registration_inuse`.
pub record Registry : Type 0 where
  pub command_head : List Entry
  pub method_head : List Entry
  pub method_registration_inuse : Bool

-- The end of both functions: the code, and what was done.
abbrev pub outcome : (ℕ → ℤ) → List ℕ → ℤ → Option ℕ → ℤ × List Effect
outcome run id unknown none = (unknown, acked id unknown ∷ [])
outcome run id unknown (some callback) = (run callback, ran callback ∷ [])

-- `tr50_command_process`.
unfoldable pub command_process :
    (ℕ → ℤ) → Registry → List ℕ → Option (List ℕ) → Res (ℤ × List Effect)
unfolding search_entry same_text
command_process run registry id none = ok (err_tr50_cmd_unknown, [])
command_process run registry id (some command) =
    if same_text command method_exec && registry.method_registration_inuse
    then ok (pos 0, [])
    else (do
      found ← search_entry registry.command_head command
      ok (outcome run id err_tr50_cmd_unknown found))

-- `tr50_method_process`. Without a name it returns its code and acknowledges nothing.
unfoldable pub method_process :
    (ℕ → ℤ) → Registry → List ℕ → Option (List ℕ) → Res (ℤ × List Effect)
unfolding search_entry
method_process run registry id method_name = elim registry.method_registration_inuse [
  | false ↦ ok (pos 0, [])
  | true ↦ elim method_name [
    | none ↦ ok (err_tr50_method_unknown, [])
    | some name ↦ do
      found ← search_entry registry.method_head name
      ok (outcome run id err_tr50_method_unknown found)
  ]
]

-- What an item of a reply has of its fields: a text that is missing is NULL.
pub record Item : Type 0 where
  pub id : Option (List ℕ)
  pub thing_key : Option (List ℕ)
  pub command : Option (List ℕ)
  -- "method" of the item's parameters.
  pub method : Option (List ℕ)

-- Two calls in a row, whose codes are not looked at.
abbrev pub both : Res (ℤ × List Effect) → Res (ℤ × List Effect) → Res (List Effect)
both first second = do (_, before) ← first; (_, behind) ← second; ok (before ++ behind)

-- The body of the loop for an item that is complete.
unfoldable pub run_item : (ℕ → ℤ) → Registry → List ℕ → List ℕ → Option (List ℕ) → Res (List Effect)
unfolding command_process method_process same_text
run_item run registry id command method =
    both
      (if same_text command method_exec
        then method_process run registry id method
        else ok (pos 0, []))
      (command_process run registry id (some command))

unfoldable pub process_item : (ℕ → ℤ) → Registry → Item → Res (List Effect)
unfolding run_item
process_item run registry item = elim item.id [
  | none ↦ ok []
  | some id ↦ elim item.thing_key [
    | none ↦ ok []
    | some key ↦ elim item.command [
      | none ↦ ok []
      | some command ↦ run_item run registry id command item.method
    ]
  ]
]

-- The loop over the items.
unfoldable pub process_items : (ℕ → ℤ) → Registry → List Item → Res (List Effect)
unfolding process_item
process_items run registry [] = ok []
process_items run registry (item ∷ items) = do
  done ← process_item run registry item
  rest ← process_items run registry items
  ok (done ++ rest)
