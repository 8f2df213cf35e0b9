-- ===== src/Serve/TrustTests.antt =====
-- A node that starts, trusts its own key, and then handles a datagram.
use weverywhere.Prelude.{
  Bool, ◌↔◌, ◌≡◌, refl, [], ◌∷◌, none, some, true, false, replicate, bytes_eq,
}
use weverywhere.Prelude.Utf8.{codes, utf8, utf8_char}
use weverywhere.Prelude.Ip.{SocketAddr, v4}
use weverywhere.Foreign.Toy.{toy_crypto, toy_sign, toy_verify}
use weverywhere.Foreign.BareToy.{toy_bare}
use weverywhere.Foreign.KeysToy.{toy_crates}
use weverywhere.KeyFiles.{read_public_key}
use weverywhere.Config.Identity.{generate, valid, check_self_signature, check_hash, identity_bytes}
use weverywhere.Executor.Program.{ProgramData}
use weverywhere.Executor.Store.{RpStoreData}
use weverywhere.Executor.State.{
  Executor, ExecOptions, trusts_pubkey, insert, add_trusted_key, begin_exec, create_pid, started,
  is_trusted, rps_store_data,
}
use weverywhere.Executor.Start.{Boot, new_executor, start_up}
use weverywhere.Serve.{World, handle_datagram}
use weverywhere.Serve.Registries.{LeavesRegistries, IsRegistered}
use weverywhere.Serve.Trust.{
  Serves, started_new, started_up, handled, Serves-IsRegistered, begin_exec-trusted_iff,
}

abbrev boot : Boot
boot = record {
  keyfile = some (replicate 32 7);
  file_name = some (codes "identity.pem");
  human_name = codes "al";
  hostname_out = some (codes "box\n");
  now = 5;
}

abbrev world : World
world = record {
  local_addr_facing = λ ip. none;
  loads = λ wasm. true;
  run = λ pid store x.
      (x, record { exit = some 0; slot = record { map = none; forward_uuid = none } });
  now = 9;
  sends = λ b to. true;
}

world-LeavesRegistries : LeavesRegistries world
world-LeavesRegistries = record {
  trusted_kept = λ pid store x. refl;
  peers_kept = λ pid store x. refl;
}

abbrev node : Executor
node = start_up toy_crypto toy_crates boot (new_executor toy_crypto toy_crates boot)

abbrev addr : SocketAddr
addr = record { ip = v4 0x0a000001; port = 2240 }

abbrev later : Executor
later = (handle_datagram toy_crypto toy_bare world 2240 node addr (2 ∷ 1 ∷ [])).executor

node_served : Serves toy_crypto toy_crates boot toy_bare 2240 true node
node_served =
    started_up false (new_executor toy_crypto toy_crates boot) node
      (started_new (new_executor toy_crypto toy_crates boot) refl) refl

later_served : Serves toy_crypto toy_crates boot toy_bare 2240 true later
later_served =
    handled true node later world addr (2 ∷ 1 ∷ []) world-LeavesRegistries node_served refl

Serves-IsRegistered_example :
    IsRegistered (read_public_key toy_crates (some (replicate 32 7))) later
Serves-IsRegistered_example =
    Serves-IsRegistered toy_crypto toy_crates boot toy_bare 2240 true later later_served

own_key_trusted : trusts_pubkey node (replicate 32 7) ≡ true
unfolding trusts_pubkey start_up new_executor add_trusted_key insert read_public_key bytes_eq
own_key_trusted = refl

hostname_trimmed : (new_executor toy_crypto toy_crates boot).hostname ≡ codes "box"
unfolding new_executor
hostname_trimmed = refl

-- A program of the node's own identity, signed with the key of its key file.
abbrev own_job : ProgramData
own_job = record {
  source = generate toy_crypto (replicate 32 7) (codes "al") 5;
  human_name = [];
  wasm_program_bytes = [];
  signature = [];
  request_uuid = [];
  depth_budget = 0;
  visited = [];
  arg_list = [];
  arg_map = [];
}

abbrev no_options : ExecOptions
no_options = record {
  node_addr = none;
  replicate_tx = none;
  fabric_send_tx = none;
  tty = none;
  uncapped_fuel = false;
}

abbrev own_store : RpStoreData
own_store = rps_store_data node own_job true no_options

own_job_started :
    (begin_exec toy_crypto (λ b. true) node own_job no_options).1 ≡ started 0 own_store
unfolding begin_exec create_pid check_self_signature check_hash generate is_trusted start_up
    new_executor add_trusted_key insert read_public_key bytes_eq toy_sign identity_bytes utf8
    utf8_char toy_verify
own_job_started = refl

begin_exec-trusted_iff_example :
    (check_self_signature toy_crypto own_job.source ≡ valid)
    × ((own_store.program_is_trusted ≡ some true) ↔ (
        (◌≡◌ {A = Bool} true true)
        × (read_public_key toy_crates (some (replicate 32 7))
            ≡ some own_job.source.encoded_public_key)))
begin_exec-trusted_iff_example =
    begin_exec-trusted_iff toy_crypto toy_crates boot toy_bare 2240 true node (λ b. true) own_job
      no_options 0 own_store node_served own_job_started
