-- ===== src/Args/Command.antt =====
-- The commands of src/args.rs, their dispatch in src/command/mod.rs, and the choice of the log in
-- src/main.rs. A path is its text.
use weverywhere.Prelude.{
  ℕ, Bool, true, false, List, Option, none, some, Text, ◌≡◌, arith, if◌then◌else◌,
}
use weverywhere.Prelude.Ip.{IpAddr}
use weverywhere.Args.{Args, parse_arg_map}

pub data DaemonAction : Type 0 where
  install uninstall start stop restart status : DaemonAction

pub data Command : Type 0 where
  info : (file_path : Text) → Command
  configuration : Command
  generate_missing_keys : Command
  install_to : (install_root install_etc install_bin : Text) → Command
  run :
      (file_path : Text) (fabric : Bool) (multicast_groups : List IpAddr) (port : ℕ)
      (arg arg_list : List Text)
      → Command
  run_local :
      (file_path : Text) (arg arg_list : List Text) (multicast_groups : List IpAddr) (port : ℕ)
      → Command
  serve : (multicast_groups : List IpAddr) (port : ℕ) → Command
  extract_programs : (out_dir : Text) → Command
  netmap :
      (program : Option Text) (local : Bool) (multicast_groups : List IpAddr) (port : ℕ) → Command
  chat : (program : Option Text) (multicast_groups : List IpAddr) (port : ℕ) → Command
  daemon : DaemonAction → Command

unfoldable pub owns_terminal : Command → Bool
owns_terminal (chat program groups port) = true
owns_terminal _ = false

pub data ConfigStyle : Type 0 where
  create_missing_keys do_not_create_missing_keys : ConfigStyle

-- The commands' own functions.
pub record Handlers {ℓ} (R : Type ℓ) : Type ℓ where
  pub on_info : Text → R
  pub on_configuration : Args → ConfigStyle → R
  pub on_install_to : Text → Text → Text → R
  pub on_run : Args → Text → Bool → List IpAddr → ℕ → List Text → List (Text × Text) → R
  pub on_run_local : Text → Args → List Text → List (Text × Text) → List IpAddr → ℕ → R
  pub on_serve : Args → List IpAddr → ℕ → R
  pub on_netmap : Args → Option Text → Bool → List IpAddr → ℕ → R
  pub on_chat : Args → Option Text → List IpAddr → ℕ → R
  pub on_extract_programs : Text → R
  pub on_daemon : DaemonAction → Args → R

unfoldable pub run_command {ℓ} : {R : Type ℓ} → Handlers R → Command → Args → R
run_command h (info file) args = h.on_info file
run_command h configuration args = h.on_configuration args do_not_create_missing_keys
run_command h generate_missing_keys args = h.on_configuration args create_missing_keys
run_command h (install_to root etc bin) args = h.on_install_to root etc bin
run_command h (run file fabric groups port arg arg_list) args =
    h.on_run args file fabric groups port arg_list (parse_arg_map arg)
run_command h (run_local file arg arg_list groups port) args =
    h.on_run_local file args arg_list (parse_arg_map arg) groups port
run_command h (serve groups port) args = h.on_serve args groups port
run_command h (extract_programs out_dir) args = h.on_extract_programs out_dir
run_command h (netmap program local groups port) args = h.on_netmap args program local groups port
run_command h (chat program groups port) args = h.on_chat args program groups port
run_command h (daemon action) args = h.on_daemon action args

-- Where the log goes.
pub data Writer : Type 0 where
  file : Text → Writer
  sink stderr : Writer

-- `opens` tells whether a log file can be opened.
unfoldable pub log_writer : (Text → Bool) → Args → Command → Writer
log_writer opens args command = elim args.log_file [
  | some path ↦ if opens path then file path else sink
  | none ↦ if owns_terminal command then sink else stderr
]

-- While a command gives the terminal to a program, nothing is logged to the terminal, whatever the
-- options are.
pub log_writer-off_terminal :
    (opens : Text → Bool) (args : Args) (command : Command)
    → log_writer opens args command ≡ stderr
    → owns_terminal command ≡ false
unfolding log_writer
log_writer-off_terminal opens args command h = ground arith
