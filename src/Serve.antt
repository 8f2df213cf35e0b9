-- ===== src/Serve.antt =====
-- src/command/serve.rs: what a node does with a datagram, and the onward forwarding of discovery.
pub mod Forward
pub mod Receipt
pub mod Admission
pub mod Spread
pub mod Delivery
pub mod Relay
pub mod Group
pub mod Registries
pub mod Trust
pub mod Listen
pub mod Ends
mod Hops
mod GroupTests
mod TrustTests
mod EndTests
mod HopTests
mod Tests
use weverywhere.Prelude.{
  ℕ, ◌+◌, Bool, true, false, not, List, [], ◌∷◌, ◌++◌, Option, none, some, Bytes, Text, ltb, leb,
  ◌==◌, ◌&&◌, ◌||◌, if◌then◌else◌, any, bytes_eq, is_empty,
}
use weverywhere.Prelude.Utf8.{codes}
use weverywhere.Prelude.Ip.{IpAddr, v4, v6, SocketAddr, addr_eq, addr_text, is_ipv4}
use weverywhere.Foreign.Crypto.{Crypto}
use weverywhere.Config.Identity.{
  IdentityData, Checked, valid, check_self_signature, verify_payload, is_valid,
}
use weverywhere.Discovery.{child_depth_budget}
use weverywhere.MessageStore.{Push}
use weverywhere.Messages.{
  NetworkMessage, execute_request, basic_return_map, basic_return_list, basic_insecure_program_exit,
  basic_insecure_program_stdout, signed_fabric_message, Bare,
}
use weverywhere.Executor.Program.{
  ProgramData, ExecReturn, new_builder, set_human_name, set_wasm_program_bytes, set_source,
  set_request_context, build,
}
use weverywhere.Executor.Store.{RpStoreData}
use weverywhere.Executor.State.{
  Executor, ExecOptions, Begun, started, bad_identity, not_loaded, begin_exec, note_peer,
  record_fabric_message, observed_targets, trusts_pubkey,
}

-- The audit log of `log_sig_event`: the kind of message, the verdict, the sender and its key.
pub record SigEvent : Type 0 where
  pub ok : Bool
  pub addr : SocketAddr
  pub pubkey : Bytes
  pub name : Text

abbrev pub sig_event : Bool → SocketAddr → IdentityData → SigEvent
sig_event ok addr source = record {
  ok = ok;
  addr = addr;
  pubkey = source.encoded_public_key;
  name = source.human_name;
}

-- What a program did while it ran: the exit code and its return slot, or the spawn error that
-- `wait_for_pid_exit` passes on.
pub record Ran : Type 0 where
  pub exit : Option ℕ
  pub slot : ExecReturn

-- What happens outside: our address that faces the caller, wasmtime, the run of a program under a
-- pid (with what it leaves of the executor), the clock, and whether the socket takes a datagram.
pub record World : Type 0 where
  pub local_addr_facing : IpAddr → Option IpAddr
  pub loads : Bytes → Bool
  pub run : ℕ → RpStoreData → Executor → Executor × Ran
  pub now : ℕ
  pub sends : Bytes → SocketAddr → Bool

-- A forwarding task that the handler spawns.
pub record ForwardTask : Type 0 where
  pub incoming : ProgramData
  pub forward_uuid : Option Bytes
  pub caller_addr : SocketAddr

-- The outcome of one datagram: the executor, what was logged and given to the socket, the forwarding
-- task, and whether the loop goes on (`?` ends it).
pub record Handled : Type 0 where
  pub executor : Executor
  pub logged : List SigEvent
  pub sent : List (Bytes × SocketAddr)
  pub forward : Option ForwardTask
  pub goes_on : Bool

abbrev pub quiet : Executor → List SigEvent → Handled
quiet x log = record { executor = x; logged = log; sent = []; forward = none; goes_on = true }

abbrev pub encoded : Bare → NetworkMessage → SocketAddr → List (Bytes × SocketAddr)
encoded bare m to = elim (bare.to_vec m) [ none ↦ [] | some b ↦ (b, to) ∷ [] ]

abbrev pub return_map :
    Bare → ℕ → ProgramData → SocketAddr → Option Bytes → List (Bytes × SocketAddr)
return_map bare pid program addr none = []
return_map bare pid program addr (some cbor) =
    encoded bare (basic_return_map pid program.request_uuid cbor) addr

-- Whether the socket takes the reply, if there is one.
abbrev pub is_taken : (Bytes → SocketAddr → Bool) → List (Bytes × SocketAddr) → Bool
is_taken sends [] = true
is_taken sends ((b, to) ∷ rest) = sends b to

module _ (crypto : Crypto) (bare : Bare) (world : World) (port : ℕ) where
  abbrev pub node_addr : SocketAddr → Option Text
  node_addr addr = elim (world.local_addr_facing addr.ip) [
    | none ↦ none
    | some ip ↦ some (addr_text (record { ip = ip; port = port }))
  ]

  abbrev pub exec_opts : SocketAddr → ExecOptions
  exec_opts addr = record {
    node_addr = node_addr addr;
    replicate_tx = none;
    fabric_send_tx = none;
    tty = none;
    uncapped_fuel = false;
  }

  -- What follows the wait for the program's exit.
  unfoldable pub after_exit :
      List SigEvent → SocketAddr → ProgramData → ℕ → Executor × Ran → Handled
  after_exit log addr program pid (x, ran) = elim ran.exit [
    | none ↦ record (quiet x log) { goes_on = false }
    | some code ↦ record {
      executor = x;
      logged = log;
      sent =
          return_map bare pid program addr ran.slot.map
          ++ encoded bare (basic_insecure_program_exit pid code) addr;
      forward =
          if ltb 0 program.depth_budget
          then some (record {
            incoming = program;
            forward_uuid = ran.slot.forward_uuid;
            caller_addr = addr;
          })
          else none;
      goes_on = is_taken world.sends (encoded bare (basic_insecure_program_exit pid code) addr);
    }
  ]

  abbrev pub after_begin : List SigEvent → SocketAddr → ProgramData → Executor × Begun → Handled
  after_begin log addr program (x, started pid store) =
      after_exit log addr program pid (world.run pid store x)
  after_begin log addr program (x, bad_identity e) = quiet x log
  after_begin log addr program (x, not_loaded) = quiet x log

  unfoldable pub handle_execute_request : Executor → SocketAddr → ProgramData → Handled
  handle_execute_request x addr program =
      let log =
        sig_event (is_valid crypto (check_self_signature crypto program.source)) addr program.source
        ∷ [] in
      let noted = note_peer x world.now addr program.source in
      after_begin log addr program (begin_exec crypto world.loads noted program (exec_opts addr))

  abbrev pub fabric_push : IdentityData → Bytes → Bytes → Push
  fabric_push source id cbor_data = record {
    from_name = source.human_name;
    from_pubkey = source.encoded_public_key;
    id = id;
    text = cbor_data;
    epoch_s = world.now;
  }

  unfoldable pub handle_fabric_message :
      Executor → SocketAddr → IdentityData → Bytes → Bytes → Bytes → Handled
  handle_fabric_message x addr source id cbor_data signature =
      if not (is_valid crypto (check_self_signature crypto source))
      then quiet x (sig_event false addr source ∷ [])
      else if not (is_valid crypto (verify_payload crypto source id cbor_data signature))
      then quiet x (sig_event false addr source ∷ [])
      else quiet
          (record_fabric_message (note_peer x world.now addr source)
            (fabric_push source id cbor_data)).0
          (sig_event true addr source ∷ [])

  abbrev pub handle_message : Executor → SocketAddr → Option NetworkMessage → Handled
  handle_message x addr (some (execute_request program)) = handle_execute_request x addr program
  handle_message x addr (some (signed_fabric_message source id cbor_data signature)) =
      handle_fabric_message x addr source id cbor_data signature
  handle_message x addr _ = quiet x []

  -- One turn of the loop of `serve_group`.
  unfoldable pub handle_datagram : Executor → SocketAddr → Bytes → Handled
  handle_datagram x addr b = handle_message x addr (bare.from_slice b)
