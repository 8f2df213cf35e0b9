-- ===== src/Args/Paths.antt =====
-- Where the configuration and the key file are: src/args.rs and `default_identity_keyfile` of
-- src/config.rs. A path is its text, its parts set apart by slashes.
use weverywhere.Prelude.{ℕ, ◌≡◌, refl, [], ◌∷◌, ◌++◌, Option, none, some, Text, ◌==◌, if◌then◌else◌}
use weverywhere.Prelude.Utf8.{codes}

pub data Os : Type 0 where
  windows : (program_data : Option Text) → Os
  macos other : Os

abbrev joined : Text → Text → Text
joined dir name = dir ++ (b'/' ∷ name)

abbrev or_program_data : Option Text → Text
or_program_data none = codes "C:\\ProgramData"
or_program_data (some base) = base

unfoldable pub default_config_path : Os → Text
default_config_path (windows program_data) =
    joined (joined (or_program_data program_data) (codes "weverywhere")) (codes "weverywhere.toml")
default_config_path macos = codes "/Library/Application Support/weverywhere/weverywhere.toml"
default_config_path other = codes "/etc/weverywhere.toml"

abbrev before_slash : ℕ → Text → Option Text → Option Text
before_slash c s (some dir) = some (c ∷ dir)
before_slash c s none = if c == b'/' then some [] else none

-- `Path::parent` of a path with a slash inside it: the text before its last slash.
unfoldable pub parent : Text → Option Text
parent [] = none
parent (c ∷ s) = before_slash c s (parent s)

-- `exe_relative_config`: `canonicalize` succeeds only on a path that exists.
unfoldable pub exe_relative_config : (Text → Option Text) → Option Text → Option Text
unfolding parent
exe_relative_config canonicalize none = none
exe_relative_config canonicalize (some exe) = elim (parent exe) [
  | none ↦ none
  | some bin ↦
      canonicalize
        (joined (joined (joined bin (codes "..")) (codes "etc")) (codes "weverywhere.toml"))
]

-- `default_identity_keyfile`: beside the default configuration.
unfoldable pub default_identity_keyfile : Os → Text
unfolding default_config_path parent
default_identity_keyfile os = elim (parent (default_config_path os)) [
  | some dir ↦ joined dir (codes "identity.pem")
  | none ↦ codes "weverywhere-identity.pem"
]

linux_keyfile : default_identity_keyfile other ≡ codes "/etc/identity.pem"
unfolding default_identity_keyfile
linux_keyfile = refl

windows_keyfile :
    default_identity_keyfile (windows none) ≡ codes "C:\\ProgramData/weverywhere/identity.pem"
unfolding default_identity_keyfile
windows_keyfile = refl
