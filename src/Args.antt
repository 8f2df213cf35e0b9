-- ===== src/Args.antt =====
-- src/args.rs: the parts of the command line that the program itself computes. The parser is clap's.
pub mod Groups
pub mod Command
pub mod Main
pub mod Paths
mod Display
mod Tests
use weverywhere.Prelude.{ℕ, Bool, List, [], ◌∷◌, map, Option, none, some, Text, ltb, split_once}
use weverywhere.Prelude.Ip.{IpAddr, v4, v6}

-- The entry of `--arg`.
unfoldable pub arg_entry : Text → Text × Text
arg_entry e = elim (split_once b'=' e) [ none ↦ (e, []) | some kv ↦ kv ]

unfoldable pub parse_arg_map : List Text → List (Text × Text)
unfolding arg_entry
parse_arg_map entries = map arg_entry entries

-- 224.0.0.3 and ff02::3.
unfoldable pub default_multicast_groups : List IpAddr
default_multicast_groups = v4 0xe0000003 ∷ v6 0xff02_0000_0000_0000_0000_0000_0000_0003 ∷ []

-- The options that a command shares with all others. A path is its text.
pub record Args : Type 0 where
  pub verbosity : ℕ
  pub config : Option Text
  pub log_file : Option Text

-- `exe_relative_config` asks the file system, `default_config_path` the platform.
unfoldable pub config_path : Args → Option Text → Text → Text
config_path args exe_relative_config default_config_path = elim args.config [
  | some explicit ↦ explicit
  | none ↦ elim exe_relative_config [ some found ↦ found | none ↦ default_config_path ]
]

unfoldable pub v_is_info : Args → Bool
v_is_info args = ltb 0 args.verbosity

unfoldable pub v_is_debug : Args → Bool
v_is_debug args = ltb 1 args.verbosity

unfoldable pub v_is_everything : Args → Bool
v_is_everything args = ltb 2 args.verbosity
