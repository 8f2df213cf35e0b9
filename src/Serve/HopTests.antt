-- ===== src/Serve/HopTests.antt =====
-- A discovery request that is forwarded by one node and arrives at the next.
use weverywhere.Prelude.{true, [], ◌∷◌, none, some, replicate}
use weverywhere.Prelude.Utf8.{codes}
use weverywhere.Prelude.Ip.{SocketAddr, v4}
use weverywhere.Foreign.Toy.{toy_crypto}
use weverywhere.Config.Identity.{IdentityData, generate}
use weverywhere.Config.Peer.{PeerMetadata}
use weverywhere.MessageStore
use weverywhere.Executor.Program.{ProgramData}
use weverywhere.Executor.State.{Executor}
use weverywhere.Serve.{World, ForwardTask}
use weverywhere.Serve.Forward.{Resolver, Target}

abbrev alice : IdentityData
alice = generate toy_crypto (replicate 32 7) (codes "al") 5

abbrev world : World
world = record {
  local_addr_facing = λ ip. none;
  loads = λ wasm. true;
  run = λ pid store x.
      (x, record { exit = some 0; slot = record { map = none; forward_uuid = none } });
  now = 9;
  sends = λ b to. true;
}

abbrev addr : SocketAddr
addr = record { ip = v4 0x0a000001; port = 2240 }

abbrev node : Executor
node = record {
  next_pid = 0;
  trusted_keys = [];
  hostname = 104 ∷ [];
  peers = [];
  messages = some (MessageStore.new 4);
  identity_signing_key = none;
  identity_pubkey = 7 ∷ [];
  identity_data = some alice;
}

-- A request with the budget of a target that is not trusted.
abbrev job : ProgramData
job = record {
  source = alice;
  human_name = [];
  wasm_program_bytes = [];
  signature = [];
  request_uuid = [];
  depth_budget = 2;
  visited = [];
  arg_list = [];
  arg_map = [];
}

abbrev task : ForwardTask
task = record { incoming = job; forward_uuid = none; caller_addr = addr }

abbrev resolver : Resolver
resolver = record { resolve_peer_addr = λ p. some addr; public_key_to_ed25519_vk = λ s. some s }

abbrev peer : PeerMetadata
peer = record { hostname = some (97 ∷ []); ipv6 = none; ipv4 = none; expected_key = some (8 ∷ []) }

abbrev target : Target
target = record { addr = addr; pubkey = some (8 ∷ []) }

-- What the node makes of it for its peer, and the task of the peer.
abbrev forwarded : ProgramData
forwarded = record job { request_uuid = 3 ∷ []; depth_budget = 1; visited = (7 ∷ []) ∷ [] }

abbrev next_task : ForwardTask
next_task = record { incoming = forwarded; forward_uuid = none; caller_addr = addr }
