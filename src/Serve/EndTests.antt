-- ===== src/Serve/EndTests.antt =====
-- The loop of a listener at concrete datagrams: it lives on, and one that ends it.
use weverywhere.Prelude.{
  ◌≡◌, refl, ◌↔◌, true, false, [], ◌∷◌, none, some, Option, Bytes, replicate, bytes_eq,
}
use weverywhere.Prelude.Utf8.{codes, utf8, utf8_char}
use weverywhere.Prelude.Ip.{SocketAddr, v4}
use weverywhere.Foreign.Toy.{toy_crypto, toy_sign, toy_verify}
use weverywhere.Foreign.BareToy.{toy_bare, toy_bare_to_vec, toy_bare_from_slice}
use weverywhere.Config.Identity.{generate, check_self_signature, check_hash, identity_bytes}
use weverywhere.Messages.{execute_request}
use weverywhere.Executor.Program.{ProgramData}
use weverywhere.MessageStore
use weverywhere.Executor.State.{
  Executor, note_peer, begin_exec, create_pid, create_next_pid, is_trusted, rps_store_data, insert,
}
use weverywhere.Serve.{World, exec_opts, handle_datagram, handle_execute_request, after_exit}
use weverywhere.Serve.Listen.{listen}
use weverywhere.Serve.Ends.{Fails, handle_datagram-ends_iff}

-- A node whose programs fail without an exit code.
abbrev failing : World
failing = record {
  local_addr_facing = λ ip. none;
  loads = λ wasm. true;
  run =
      λ pid store x. (x, record { exit = none; slot = record { map = none; forward_uuid = none } });
  now = 9;
  sends = λ b to. true;
}

abbrev addr : SocketAddr
addr = record { ip = v4 0x0a000001; port = 2240 }

abbrev node : Executor
node = record {
  next_pid = 0;
  trusted_keys = [];
  hostname = 104 ∷ [];
  peers = [];
  messages = some (MessageStore.new 4);
  identity_signing_key = none;
  identity_pubkey = 7 ∷ [];
  identity_data = none;
}

abbrev job : ProgramData
job = record {
  source = generate toy_crypto (replicate 32 7) (codes "al") 5;
  human_name = [];
  wasm_program_bytes = [];
  signature = [];
  request_uuid = [];
  depth_budget = 0;
  visited = [];
  arg_list = [];
  arg_map = [];
}

abbrev or_nothing : Option Bytes → Bytes
or_nothing none = []
or_nothing (some b) = b

abbrev request_bytes : Bytes
request_bytes = or_nothing (toy_bare.to_vec (execute_request job))

handle_datagram-ends_iff_example :
    ((handle_datagram toy_crypto toy_bare failing 2240 node addr request_bytes).goes_on ≡ false) ↔ (
      (program : ProgramData) × (toy_bare.from_slice request_bytes ≡ some (execute_request program))
      × Fails toy_crypto toy_bare failing 2240 addr (
          begin_exec toy_crypto failing.loads
            (note_peer node 9 addr program.source)
            program
            (exec_opts toy_crypto toy_bare failing 2240 addr)))
handle_datagram-ends_iff_example =
    handle_datagram-ends_iff toy_crypto toy_bare failing 2240 node addr request_bytes

request_ends :
    (handle_datagram toy_crypto toy_bare failing 2240 node addr request_bytes).goes_on ≡ false
unfolding handle_datagram handle_execute_request toy_bare_to_vec toy_bare_from_slice begin_exec
    create_pid create_next_pid check_self_signature check_hash generate is_trusted note_peer insert
    bytes_eq toy_sign identity_bytes utf8 utf8_char toy_verify after_exit rps_store_data
request_ends = refl

-- What is no message is passed over; an error of the socket ends the loop.
noise_passes :
    (listen toy_crypto toy_bare 2240 node (
      some (record { world = failing; addr = addr; bytes = 9 ∷ [] })
      ∷ none
      ∷ some (record { world = failing; addr = addr; bytes = 9 ∷ [] })
      ∷ [])).ended
    ≡ true
unfolding listen handle_datagram toy_bare_from_slice
noise_passes = refl
