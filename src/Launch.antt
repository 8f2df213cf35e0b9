-- ===== src/Launch.antt =====
-- The local launchers: src/command/run_local.rs, src/command/chat.rs, and the resolution of a bundled
-- program, which src/command/netmap.rs shares.
mod Laws
use weverywhere.Prelude.{
  ℕ, Bool, true, false, List, [], ◌∷◌, ◌++◌, map, Option, none, some, Bytes, Text, bytes_eq,
  flat_map, if◌then◌else◌,
}
use weverywhere.Prelude.Utf8.{codes}
use weverywhere.Prelude.Ip.{IpAddr}
use weverywhere.Config.Identity.{IdentityData}
use weverywhere.Config.Peer.{PeerMetadata}
use weverywhere.Messages.{Bare}
use weverywhere.Executor.Program.{
  ProgramData, ProgramDataBuilder, ReplicateRequest, new_builder, set_human_name,
  set_wasm_program_bytes, set_source, set_args, build,
}
use weverywhere.Executor.Store.{Sink, RpStoreData}
use weverywhere.Executor.State.{Executor, ExecOptions, Begun, begin_exec, started}
use weverywhere.Foreign.Crypto.{Crypto}
use weverywhere.Tty.Handle.{TtyHandle}
use weverywhere.Run.{Net, Send, request, broadcast_program_to_fabric, broadcast_bytes_to_fabric}

-- `embedded_programs::get` in the table that the build makes.
unfoldable pub get_embedded : List (Text × Bytes) → Text → Option Bytes
get_embedded [] name = none
get_embedded ((n, b) ∷ rest) name =
    let later = get_embedded rest name in if bytes_eq n name then some b else later

abbrev pub fallback_path : Text → Text
fallback_path name = codes "target/example-programs/" ++ (name ++ codes ".wasm")

-- `resolve_chat_program` and `resolve_discovery_program`: the bytes of the program, read from the file
-- that is given, embedded, or read from the build's output.
unfoldable pub resolve_program :
    (Text → Option Bytes) → List (Text × Bytes) → Text → Option Text → Option Bytes
unfolding get_embedded
resolve_program read embedded name program = elim program [
  | some path ↦ read path
  | none ↦ elim (get_embedded embedded name) [ some b ↦ some b | none ↦ read (fallback_path name) ]
]

-- What a launcher is given by the configuration and the command line.
pub record Launcher : Type 0 where
  pub wasm : Bytes
  pub name : Text
  pub source : IdentityData
  pub groups : List IpAddr
  pub port : ℕ
  pub peers : List PeerMetadata

-- A sender whose receiver the launcher holds.
abbrev pub open_sink {ℓ} : {A : Type ℓ} → Option (Sink A)
open_sink = some (record { is_open = true; sent = [] })

abbrev pub no_options : ExecOptions
no_options = record {
  node_addr = none;
  replicate_tx = none;
  fabric_send_tx = none;
  tty = none;
  uncapped_fuel = false;
}

unfoldable pub run_local_options : ExecOptions
run_local_options = record no_options { replicate_tx = open_sink }

unfoldable pub chat_options : TtyHandle → ExecOptions
chat_options tty = record no_options {
  tty = some tty;
  fabric_send_tx = open_sink;
  uncapped_fuel = true;
}

abbrev pub queued {ℓ} : {A : Type ℓ} → Option (Sink A) → List A
queued none = []
queued (some s) = s.sent

module _ (net : Net) (bare : Bare) (l : Launcher) where
  -- `while let Ok(req) = replicate_rx.try_recv()`: a copy of the program goes out for every request; a
  -- `none` is a failure, which is warned of.
  unfoldable pub drain_replicates : List ReplicateRequest → List (Option (List Send × Bool))
  drain_replicates reqs =
      map
        (λ (r : ReplicateRequest).
          broadcast_program_to_fabric net bare l.wasm l.source l.name r.arg_list r.arg_map l.groups
            l.port l.peers)
        reqs

  -- The task of `chat` that drains the messages.
  unfoldable pub drain_messages : List Bytes → List (List Send × Bool)
  drain_messages messages =
      map (λ b. broadcast_bytes_to_fabric net b l.groups l.port l.peers) messages

  -- `world` is the run of the program: what it leaves in the store, and whether the wait for its end
  -- brings an exit code, and no error.
  module _ (crypto : Crypto) (loads : Bytes → Bool) (world : RpStoreData → RpStoreData × Bool) where
    abbrev pub ran : Executor × Begun → Option (RpStoreData × Bool)
    ran (x, started pid store) = some (world store)
    ran (x, b) = none

    abbrev pub launch :
        Executor → ExecOptions → Option ProgramData → Option (Option (RpStoreData × Bool))
    launch x opts none = none
    launch x opts (some pd) = some (ran (begin_exec crypto loads x pd opts))

    -- `none` is an error. A program that does not start has replicated nothing, and a wait that fails
    -- ends the command before the replications.
    unfoldable pub run_local :
        Executor → List Text → List (Text × Text) → Option (List (Option (List Send × Bool)))
    unfolding drain_replicates run_local_options request
    run_local x arg_list arg_map =
        elim (launch x run_local_options
          (build (request l.wasm l.source l.name arg_list arg_map))) [
            | none ↦ none
            | some none ↦ some []
            | some (some (store, exited)) ↦
                if exited then some (drain_replicates (queued store.replicate_tx)) else none
          ]

    -- The program runs in `ui` mode. Here a program that does not start is an error, too, and a wait
    -- that fails is none.
    unfoldable pub chat : Executor → TtyHandle → Option (List (List Send × Bool))
    unfolding drain_messages chat_options request
    chat x tty =
        elim (launch x (chat_options tty)
          (build (request l.wasm l.source (codes "chat") [] ((codes "mode", codes "ui") ∷ [])))) [
            | none ↦ none
            | some none ↦ none
            | some (some (store, exited)) ↦ some (drain_messages (queued store.fabric_send_tx))
          ]
