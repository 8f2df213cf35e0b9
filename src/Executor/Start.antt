-- ===== src/Executor/Start.antt =====
-- `Executor::new` of src/executor/mod.rs and the task that it starts.
use weverywhere.Prelude.{ℕ, [], Option, none, some, Bytes, Text, trim, is_empty, if◌then◌else◌}
use weverywhere.Prelude.Utf8.{codes, decode, from_utf8_lossy}
use weverywhere.Foreign.Crypto.{Crypto}
use weverywhere.Config.Identity.{IdentityData, generate}
use weverywhere.KeyFiles.{KeyCrates, read_private_key, read_public_key}
use weverywhere.MessageStore
use weverywhere.Executor.State.{Executor, ExecOptions, add_trusted_key}

abbrev named : Text → Text
named name = if is_empty name then codes "unknown-host" else name

-- `get_hostname`: the output of the command, if it succeeds.
unfoldable pub get_hostname : Option Bytes → Text
unfolding trim decode
get_hostname none = codes "unknown-host"
get_hostname (some out) = named (trim (from_utf8_lossy out))

-- What the node finds when it starts: the key file's text and its name in the directory, the name in
-- the configuration, what `hostname` prints, and the time.
pub record Boot : Type 0 where
  pub keyfile : Option Text
  pub file_name : Option Text
  pub human_name : Text
  pub hostname_out : Option Bytes
  pub now : ℕ

abbrev or_empty : Option Bytes → Bytes
or_empty none = []
or_empty (some b) = b

abbrev pub or_self : Option Text → Text
or_self none = codes "SELF"
or_self (some name) = name

module _ (crypto : Crypto) (crates : KeyCrates) (boot : Boot) where
  abbrev own_public_key : Option Bytes → Option Bytes
  own_public_key none = none
  own_public_key (some sk) = some (crates.verifying_key sk)

  abbrev own_identity : Option Bytes → Option IdentityData
  own_identity none = none
  own_identity (some sk) = some (generate crypto sk boot.human_name boot.now)

  -- `Executor::new`: no program, no peer and no trusted key, and an empty store.
  unfoldable pub new_executor : Executor
  unfolding get_hostname read_private_key
  new_executor =
      let sk = read_private_key crates boot.keyfile in
      record {
        next_pid = 0;
        trusted_keys = [];
        hostname = get_hostname boot.hostname_out;
        peers = [];
        messages = some (MessageStore.new 4096);
        identity_signing_key = sk;
        identity_pubkey = or_empty (own_public_key sk);
        identity_data = own_identity sk;
      }

  abbrev trusting : Executor → Option Bytes → Executor
  trusting x none = x
  trusting x (some pk) = add_trusted_key x (or_self boot.file_name) pk

  -- The task of `Executor::new` that runs beside it, once the executor is there.
  unfoldable pub start_up : Executor → Executor
  start_up x = trusting x (read_public_key crates boot.keyfile)

-- The fuel that `create_pid` gives a program, trusted or not; `none` is a program that runs without a
-- limit.
unfoldable pub initial_fuel : ExecOptions → Option ℕ
initial_fuel opts = if opts.uncapped_fuel then none else some 128000
