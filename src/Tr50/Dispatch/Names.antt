-- ===== src/Tr50/Dispatch/Names.antt =====
-- What a registration changes for the searches that come later.
use libtr.Base.{
  ℕ, ◌≤◌, ◌<◌, ◌≡◌, refl, ap, List, [], ◌∷◌, ◌++◌, some, Bool, true, false, length, take,
  if◌then◌else◌, lt→ltb, le→ltb_false, arith, take_short,
}
use libtr.Error.{ok, fault}
use libtr.Tr50.Client.Handlers.{starts_with, same_text}
use libtr.Tr50.Dispatch.{Entry, new_entry, register, name_matches, search_entry}

starts_with-append : (xs ys : List ℕ) → starts_with xs (xs ++ ys) ≡ true
unfolding starts_with
starts_with-append [] ys = refl
starts_with-append (x ∷ xs) ys = ground (arith, starts_with-append xs ys)

short_matches :
    (name text : List ℕ) (callback : ℕ)
    → length name < 64
    → name_matches (new_entry name callback) text ≡ ok (same_text name text)
unfolding name_matches
short_matches name text callback short =
    rw (lt→ltb (length name) 64 short)
      (ap (λ t. ok (same_text t text)) (take_short 64 name (omega arith)))

search_step :
    (entry : Entry) (entries : List Entry) (text : List ℕ) (b : Bool)
    → name_matches entry text ≡ ok b
    → search_entry (entry ∷ entries) text
      ≡ (if b then ok (some entry.callback) else search_entry entries text)
unfolding search_entry
search_step entry entries text true e = rw (e, search_entry) refl
search_step entry entries text false e = rw (e, search_entry) refl

-- Behind the registration of a name of fewer than 64 bytes, a search for that name gives the new
-- callback, also where the name was registered before, and a search for any other text what it gave
-- before.
pub search_entry-register :
    (entries : List Entry) (name text : List ℕ) (callback : ℕ)
    → length name < 64
    → (entries' : List Entry) × (register true entries name callback ≡ ok entries')
      × (search_entry entries' text
          ≡ (if same_text name text then ok (some callback) else search_entry entries text))
unfolding register
search_entry-register entries name text callback short = (
  new_entry name callback ∷ entries,
  refl,
  search_step (new_entry name callback) entries text (same_text name text)
      (short_matches name text callback short),
)

-- A name of at least 64 bytes is registered without a terminator: a search for a text that starts with
-- its first 64 bytes reads behind the array of the name.
pub search_entry-unterminated :
    (entries : List Entry) (name rest : List ℕ) (callback : ℕ)
    → 64 ≤ length name
    → (entries' : List Entry) × (register true entries name callback ≡ ok entries')
      × (search_entry entries' (take 64 name ++ rest) ≡ fault)
unfolding register search_entry name_matches
search_entry-unterminated entries name rest callback long = (
  new_entry name callback ∷ entries,
  refl,
  rw (le→ltb_false (length name) 64 long) (rw (starts_with-append (take 64 name) rest) refl),
)
