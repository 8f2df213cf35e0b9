-- ===== src/Configuration/Tests.antt =====
-- A node whose key file exists.
use weverywhere.Prelude.{◌≡◌, refl, true, some, none, [], ◌∷◌, bytes_eq, if◌then◌else◌}
use weverywhere.Prelude.Utf8.{codes}
use weverywhere.Args.Command.{create_missing_keys}
use weverywhere.Configuration.{Files, configuration}

abbrev files : Files
files = λ p. if bytes_eq p (codes "/k") then some (1 ∷ []) else none

key_kept :
    (configuration (λ p. true) (9 ∷ []) (λ b. b) create_missing_keys (some (codes "/k")) files).0
      (codes "/k")
    ≡ some (1 ∷ [])
unfolding configuration bytes_eq
key_kept = refl

key_made :
    (configuration (λ p. true) (9 ∷ []) (λ b. b) create_missing_keys (some (codes "/j")) files).0
      (codes "/j")
    ≡ some (9 ∷ [])
unfolding configuration bytes_eq
key_made = refl
