-- ===== src/Serve/Tests.antt =====
-- Tests of the datagram handler, and its theorems at a concrete node.
use weverywhere.Prelude.{
  ◌≡◌, refl, ◌⊎◌, true, false, [], ◌∷◌, Option, none, some, Bytes, All, last_n,
}
use weverywhere.Prelude.Ip.{SocketAddr, v4}
use weverywhere.Foreign.Cbor.{pos}
use weverywhere.Foreign.Toy.{toy_crypto}
use weverywhere.Foreign.BareToy.{toy_bare, toy_bare_to_vec}
use weverywhere.Config.Identity.{
  IdentityData, generate, valid, is_valid, check_self_signature, check_hash, verify_payload,
  sign_payload,
}
use weverywhere.Config.Signing.{generate-accepted}
use weverywhere.Config.Peer.{PeerMetadata}
use weverywhere.MessageStore.{MessageStore, new}
use weverywhere.Executor.Program.{ProgramData}
use weverywhere.Executor.Memory.{read_guest_bytes}
use weverywhere.Executor.Store.{Sink, Guest}
use weverywhere.Executor.HostMessages.{host_messages_send, signed_message}
use weverywhere.Executor.State.{Executor, ExecOptions, PeerInfo, lookup, to_hex}
use weverywhere.Serve.{
  World, sig_event, handle_datagram, handle_fabric_message, handle_execute_request,
}
use weverywhere.Serve.Forward.{Resolver, datagram, discovery_forward, relay}
use weverywhere.Serve.Receipt.{IsReceived}
use weverywhere.Serve.Admission.{handle_fabric_message-outcome, handle_execute_request-forged}
use weverywhere.Serve.Spread.{LeadsOn, discovery_forward-LeadsOn}
use weverywhere.Serve.Delivery.{host_messages_send-delivers}
use weverywhere.Serve.Relay.{IsForCaller, relay-IsForCaller}

abbrev alice : IdentityData
alice = generate toy_crypto (1 ∷ []) (97 ∷ []) 5

abbrev addr : SocketAddr
addr = record { ip = v4 0x0a000001; port = 2240 }

abbrev node : Executor
node = record {
  next_pid = 0;
  trusted_keys = [];
  hostname = 104 ∷ [];
  peers = [];
  messages = some (new 4);
  identity_signing_key = none;
  identity_pubkey = 7 ∷ [];
  identity_data = some alice;
}

abbrev world : World
world = record {
  local_addr_facing = λ ip. none;
  loads = λ wasm. true;
  run = λ pid store x.
      (x, record { exit = some 0; slot = record { map = none; forward_uuid = none } });
  now = 9;
  sends = λ b to. true;
}

abbrev job : ProgramData
job = record {
  source = alice;
  human_name = [];
  wasm_program_bytes = [];
  signature = [];
  request_uuid = [];
  depth_budget = 2;
  visited = [];
  arg_list = [];
  arg_map = [];
}

abbrev no_options : ExecOptions
no_options = record {
  tty = none;
  node_addr = none;
  replicate_tx = none;
  fabric_send_tx = none;
  uncapped_fuel = false;
}

-- The same source, another program.
abbrev other_job : ProgramData
other_job = record job { wasm_program_bytes = 0 ∷ 97 ∷ []; signature = 6 ∷ [] }

-- An identity that names alice's key and carries no signature.
abbrev forged : IdentityData
forged = record alice { human_name = 109 ∷ []; signature = [] }

forged-invalid : is_valid toy_crypto (check_self_signature toy_crypto forged) ≡ false
unfolding check_self_signature check_hash generate
forged-invalid = refl

abbrev signature : Bytes
signature = sign_payload toy_crypto (1 ∷ []) (3 ∷ []) (128 ∷ [])

-- Alice's message is accepted.
alice_accepted :
    (check_self_signature toy_crypto alice ≡ valid)
    × (verify_payload toy_crypto alice (3 ∷ []) (128 ∷ []) signature ≡ valid)
alice_accepted = generate-accepted toy_crypto (1 ∷ []) (97 ∷ []) 5 (3 ∷ []) (128 ∷ [])

handle_fabric_message-outcome_example :
    let accepted =
      (check_self_signature toy_crypto alice ≡ valid)
      × (verify_payload toy_crypto alice (3 ∷ []) (128 ∷ []) signature ≡ valid) in
    let handled =
      handle_fabric_message toy_crypto toy_bare world 2240 node addr alice
        (3 ∷ [])
        (128 ∷ [])
        signature in
    (accepted
      × IsReceived node handled.executor 9 addr alice (3 ∷ []) (128 ∷ [])
      × (handled.logged ≡ sig_event true addr alice ∷ []))
    ⊎ ((accepted → ⊥)
        × (handled.executor ≡ node)
        × (handled.logged ≡ sig_event false addr alice ∷ []))
handle_fabric_message-outcome_example =
    handle_fabric_message-outcome toy_crypto toy_bare world 2240 node addr alice (3 ∷ []) (128 ∷ [])
      signature

handle_execute_request-forged_example :
    let handled =
      handle_execute_request toy_crypto toy_bare world 2240 node addr
        (record job { source = forged }) in
    (handled.sent ≡ [])
    × (handled.logged ≡ sig_event false addr forged ∷ [])
    × ((p : PeerInfo) × (lookup (to_hex alice.encoded_public_key) handled.executor.peers ≡ some p)
        × (p.last_addr ≡ addr)
        × (p.human_name ≡ 109 ∷ []))
handle_execute_request-forged_example =
    handle_execute_request-forged toy_crypto toy_bare world 2240 node addr
      (record job { source = forged }) forged-invalid

abbrev resolver : Resolver
resolver = record { resolve_peer_addr = λ p. some addr; public_key_to_ed25519_vk = λ s. some s }

abbrev peer : PeerMetadata
peer = record { hostname = some (97 ∷ []); ipv6 = none; ipv4 = none; expected_key = some (8 ∷ []) }

discovery_forward-LeadsOn_example :
    All (LeadsOn node alice job) (discovery_forward resolver (peer ∷ peer ∷ []) node [] job none)
discovery_forward-LeadsOn_example =
    discovery_forward-LeadsOn resolver (peer ∷ peer ∷ []) node alice [] job none refl

relay-IsForCaller_example :
    All
      (IsForCaller toy_bare (6 ∷ []))
      (relay toy_bare (6 ∷ []) 0 (datagram 5 (2 ∷ 1 ∷ 1 ∷ 4 ∷ 3 ∷ []) ∷ []))
relay-IsForCaller_example =
    relay-IsForCaller toy_bare (6 ∷ []) 0 (datagram 5 (2 ∷ 1 ∷ 1 ∷ 4 ∷ 3 ∷ []) ∷ [])

abbrev queue : Sink Bytes
queue = record { is_open = true; sent = [] }

abbrev chat : Guest
chat = record {
  memory = some (128 ∷ []);
  printed = [];
  store = record {
    program_is_trusted = some false;
    hostname = [];
    peer_reports = [];
    signing_key = some (1 ∷ []);
    our_pubkey = [];
    caller_pubkey = [];
    caller_name = [];
    messages = none;
    trusted_pubkeys = [];
    replicate_tx = none;
    fabric_send_tx = some queue;
    identity_data = some alice;
    depth = 0;
    tty = none;
    node_addr = none;
    arg_list = [];
    arg_map = [];
    return_slot = none;
  };
}

abbrev or_nothing : Option Bytes → Bytes
or_nothing none = []
or_nothing (some b) = b

abbrev chat_after : Guest
chat_after = record chat {
  store = record chat.store {
    fabric_send_tx = some (record queue {
      sent =
          or_nothing
            (toy_bare.to_vec (signed_message toy_crypto alice (1 ∷ []) (3 ∷ []) (128 ∷ [])))
          ∷ [];
    });
  };
}

chat-sends :
    host_messages_send toy_crypto toy_bare (3 ∷ []) chat (pos 0) (pos 1) ≡ some (chat_after, pos 0)
unfolding host_messages_send read_guest_bytes toy_bare_to_vec signed_message
chat-sends = refl

host_messages_send-delivers_example :
    (payload : Bytes) × (b : Bytes) × (t : MessageStore) × (read_guest_bytes
        (some (128 ∷ []))
        (pos 0)
        (pos 1)
      ≡ some payload)
    × (chat_after.store.fabric_send_tx ≡ some (record queue { sent = b ∷ [] }))
    × ((handle_datagram toy_crypto toy_bare world 2240 node addr b).executor.messages ≡ some t)
    × (t.msgs
        ≡ last_n 4 (
            record {
              seq = 1;
              from_name = 97 ∷ [];
              from_pubkey = alice.encoded_public_key;
              text = payload;
              epoch_s = 9;
            }
            ∷ []))
    × ((handle_datagram toy_crypto toy_bare world 2240 node addr b).logged
        ≡ sig_event true addr alice ∷ [])
unfolding generate new
host_messages_send-delivers_example =
    host_messages_send-delivers toy_crypto toy_bare (3 ∷ []) chat chat_after (pos 0) (pos 1) alice
      (1 ∷ []) queue world 2240 node addr (new 4) refl refl
      (generate-accepted toy_crypto (1 ∷ []) (97 ∷ []) 5 [] []).0 chat-sends refl refl
