-- ===== src/Tr50/Dispatch/Laws.antt =====
-- What the items of a reply lead to, against a description without the loops of the source.
use mathlib.Core.Path.{ap₂}
use libtr.Base.{
  ℕ, ◌≡◌, refl, ap, ◌∙◌, List, [], ◌∷◌, ◌++◌, append-nil, Option, none, some, Bool, true, false,
  ◌&&◌, if◌then◌else◌, All, Bool-cases, Option-cases, inl, inr,
}
use libtr.Base.Int.{ℤ, pos}
use libtr.Error.{ok, err_tr50_cmd_unknown, err_tr50_method_unknown}
use libtr.Tr50.Client.Handlers.{same_text}
use libtr.Tr50.Dispatch.{
  both, Entry, name_matches, search_entry, Effect, ran, acked, method_exec, Registry, outcome,
  command_process, method_process, Item, run_item, process_item, process_items,
}

-- The names of a list have their terminators.
abbrev pub AllTerminated : List Entry → Type 0
AllTerminated = All (λ entry. entry.terminated ≡ true)

-- The callback that was registered last under a name.
abbrev pub callback_named : List Entry → List ℕ → Option ℕ
callback_named [] text = none
callback_named (entry ∷ entries) text =
    if same_text entry.name text then some entry.callback else callback_named entries text

-- The one thing that is done for a name: its callback is called, or the server is told that it is
-- unknown.
abbrev pub answer_to : List ℕ → ℤ → Option ℕ → Effect
answer_to id unknown none = acked id unknown
answer_to id unknown (some callback) = ran callback

-- What an item leads to: nothing if it is not complete, or if it is to call a method without a name,
-- and one effect otherwise. Methods are only looked for where one was registered.
abbrev pub effects_of : Registry → Item → List Effect
effects_of registry item = elim item.id [
  | none ↦ []
  | some id ↦ elim item.thing_key [
    | none ↦ []
    | some key ↦ elim item.command [
      | none ↦ []
      | some command ↦
          if same_text command method_exec && registry.method_registration_inuse
          then elim item.method [
            | none ↦ []
            | some method ↦
                answer_to id err_tr50_method_unknown (callback_named registry.method_head method)
                ∷ []
          ]
          else answer_to id err_tr50_cmd_unknown (callback_named registry.command_head command) ∷ []
    ]
  ]
]

abbrev pub all_effects : Registry → List Item → List Effect
all_effects registry [] = []
all_effects registry (item ∷ items) = effects_of registry item ++ all_effects registry items

search_entry-named :
    (entries : List Entry) (text : List ℕ)
    → AllTerminated entries
    → search_entry entries text ≡ ok (callback_named entries text)
unfolding search_entry name_matches
search_entry-named [] text all = refl
search_entry-named (entry ∷ entries) text (here, all) =
    elim (Bool-cases (same_text entry.name text)) [
      | inl same ↦ rw (here, same) refl
      | inr other ↦ rw (here, other) (search_entry-named entries text all)
    ]

outcome-effects :
    (run : ℕ → ℤ) (id : List ℕ) (unknown : ℤ) (found : Option ℕ)
    → (outcome run id unknown found).1 ≡ answer_to id unknown found ∷ []
outcome-effects run id unknown none = refl
outcome-effects run id unknown (some callback) = refl

command_process-effects :
    (run : ℕ → ℤ) (registry : Registry) (id command : List ℕ)
    → AllTerminated registry.command_head
    → (ret : ℤ) × (command_process run registry id (some command)
        ≡ ok (
          ret,
          (if same_text command method_exec && registry.method_registration_inuse
              then []
              else answer_to id err_tr50_cmd_unknown (callback_named registry.command_head command)
                ∷ []),
        ))
unfolding command_process
command_process-effects run registry id command all =
    elim (Bool-cases (same_text command method_exec && registry.method_registration_inuse)) [
      | inl skip ↦ (pos 0, rw skip refl)
      | inr look ↦
          let found = callback_named registry.command_head command in
          (
            (outcome run id err_tr50_cmd_unknown found).0,
            rw look (
                rw (search_entry-named registry.command_head command all) (
                  ap (λ effects. ok ((outcome run id err_tr50_cmd_unknown found).0, effects))
                    (outcome-effects run id err_tr50_cmd_unknown found))),
          )
    ]

-- The effects of a call of a method, where one was registered.
abbrev method_effects : Registry → List ℕ → Option (List ℕ) → List Effect
method_effects registry id none = []
method_effects registry id (some method) =
    answer_to id err_tr50_method_unknown (callback_named registry.method_head method) ∷ []

method_process-effects :
    (run : ℕ → ℤ) (registry : Registry) (id : List ℕ) (method : Option (List ℕ))
    → AllTerminated registry.method_head
    → (ret : ℤ) × (method_process run registry id method
        ≡ ok (
          ret,
          (if registry.method_registration_inuse then method_effects registry id method else []),
        ))
unfolding method_process
method_process-effects run registry id none all =
    elim (Bool-cases registry.method_registration_inuse) [
      | inr unused ↦ (pos 0, rw (unused, method_process) refl)
      | inl used ↦ (err_tr50_method_unknown, rw (used, method_process) refl)
    ]
method_process-effects run registry id (some name) all =
    elim (Bool-cases registry.method_registration_inuse) [
      | inr unused ↦ (pos 0, rw (unused, method_process) refl)
      | inl used ↦
          let found = callback_named registry.method_head name in
          (
            (outcome run id err_tr50_method_unknown found).0,
            rw (used, method_process)
                (rw (search_entry-named registry.method_head name all) (
                  ap (λ effects. ok ((outcome run id err_tr50_method_unknown found).0, effects))
                    (outcome-effects run id err_tr50_method_unknown found))),
          )
    ]

effects_in_row :
    (ret1 ret2 : ℤ) (exec used : Bool) (first second : List Effect)
    → both
        (if exec then ok (ret1, (if used then first else [])) else ok (pos 0, []))
        (ok (ret2, (if exec && used then [] else second)))
      ≡ ok (if exec && used then first else second)
effects_in_row ret1 ret2 true true first second = ap ok (append-nil first)
effects_in_row ret1 ret2 true false first second = refl
effects_in_row ret1 ret2 false used first second = refl

run_item-effects :
    (run : ℕ → ℤ) (registry : Registry) (id command : List ℕ) (method : Option (List ℕ))
    → AllTerminated registry.command_head
    → AllTerminated registry.method_head
    → run_item run registry id command method
      ≡ ok (
          if same_text command method_exec && registry.method_registration_inuse
          then method_effects registry id method
          else answer_to id err_tr50_cmd_unknown (callback_named registry.command_head command)
            ∷ [])
unfolding run_item
run_item-effects run registry id command method commands methods =
    let (ret1, first) = method_process-effects run registry id method methods in
    let (ret2, second) = command_process-effects run registry id command commands in
    let exec_first = λ (b : Bool). ap (λ m. if b then m else ok (pos 0, [])) first in
    ap₂ both (exec_first (same_text command method_exec)) second
    ∙ effects_in_row ret1 ret2 (same_text command method_exec) registry.method_registration_inuse
        (method_effects registry id method)
        (answer_to id err_tr50_cmd_unknown (callback_named registry.command_head command) ∷ [])

process_item-effects :
    (run : ℕ → ℤ) (registry : Registry) (item : Item)
    → AllTerminated registry.command_head
    → AllTerminated registry.method_head
    → process_item run registry item ≡ ok (effects_of registry item)
unfolding process_item
process_item-effects run registry item commands methods = elim (Option-cases item.id) [
  | inl no_id ↦ rw no_id refl
  | inr (id, has_id) ↦ elim (Option-cases item.thing_key) [
    | inl no_key ↦ rw (has_id, no_key) refl
    | inr (key, has_key) ↦ elim (Option-cases item.command) [
      | inl no_command ↦ rw (has_id, has_key, no_command) refl
      | inr (command, has_command) ↦ elim (Option-cases item.method) [
        | inl nameless ↦
            rw (has_id, has_key, has_command, nameless)
              (run_item-effects run registry id command none commands methods)
        | inr (method, has_method) ↦
            rw (has_id, has_key, has_command, has_method)
              (run_item-effects run registry id command (some method) commands methods)
      ]
    ]
  ]
]

-- Where each registered name has its terminator, the items of a reply are taken in order, and each that
-- has an identifier, a key and a command is answered exactly once: the callback that was
-- registered last under its name is called, or the server is told that the name is unknown. Only
-- a call of a method without a name, where a method was registered, is not answered at all.
pub process_items-effects :
    (run : ℕ → ℤ) (registry : Registry) (items : List Item)
    → AllTerminated registry.command_head
    → AllTerminated registry.method_head
    → process_items run registry items ≡ ok (all_effects registry items)
unfolding process_items
process_items-effects run registry [] commands methods = refl
process_items-effects run registry (item ∷ items) commands methods =
    rw (process_item-effects run registry item commands methods, process_items)
      (rw (process_items-effects run registry items commands methods) refl)
