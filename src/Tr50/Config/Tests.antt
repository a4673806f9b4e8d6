-- ===== src/Tr50/Config/Tests.antt =====
-- A configuration whose user name is set, and set to NULL.
use libtr.Base.{◌≡◌, refl, [], ◌∷◌, none, some}
use libtr.Error.{ok, fault}
use libtr.Memory.Sample.{heap}
use libtr.Tr50.Config.{Config, held, no_config, set_username, delete}
use libtr.Tr50.Config.Texts.{set_username-dangles}

abbrev named : Config
named = record no_config { username = held (117 ∷ []) }

set_username-dangles_example :
    (config' : Config) × (set_username heap named none ≡ ok config')
    × (set_username heap config' (some (118 ∷ [])) ≡ fault)
    × (delete config' ≡ fault)
set_username-dangles_example = set_username-dangles heap named (117 ∷ []) (some (118 ∷ [])) refl
