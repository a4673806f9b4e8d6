-- ===== src/Tr50/Config/Texts.antt =====
-- The texts that a configuration owns.
use libtr.Base.{ℕ, ◌≡◌, refl, List, Option, none}
use libtr.Error.{Res, ok, fault, ◌>>=◌}
use libtr.Memory.{Malloc}
use libtr.Tr50.Config.{Config, Text, held, freed, null, release, set_username, delete}

release-fault :
    {B : Type 0} (text : Text) (next : Unit {0} → Res B)
    → next tt ≡ fault
    → (release text >>= next) ≡ fault
unfolding release
release-fault null next e = e
release-fault (held text) next e = e
release-fault freed next e = refl

-- The deletion of a configuration whose user name was freed.
delete-freed : (config : Config) → config.username ≡ freed → delete config ≡ fault
unfolding delete release
delete-freed config e = release-fault config.client_id _ (release-fault config.host _ (rw e refl))

-- Where a user name is held, `tr50_config_set_username` with NULL frees it and leaves the pointer: the
-- next call of it, whatever its argument is, and the deletion of the client both use the freed
-- block.
pub set_username-dangles :
    (malloc : Malloc) (config : Config) (username : List ℕ) (next : Option (List ℕ))
    → config.username ≡ held username
    → (config' : Config) × (set_username malloc config none ≡ ok config')
      × (set_username malloc config' next ≡ fault)
      × (delete config' ≡ fault)
unfolding set_username release delete
set_username-dangles malloc config username next e =
    let config' : Config = record config { username = freed } in
    (config', rw (e, set_username) refl, refl, delete-freed config' refl)
