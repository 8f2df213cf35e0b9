-- ===== src/Serve/Forward.antt =====
-- `discovery_forward` and `relay_one_peer` of src/command/serve.rs.
use weverywhere.Prelude.{
  ℕ, ◌+◌, Bool, false, List, [], ◌∷◌, ◌++◌, map, Option, none, some, Bytes, Text, leb, ◌||◌,
  if◌then◌else◌, any, bytes_eq, is_empty,
}
use weverywhere.Prelude.Ip.{SocketAddr, addr_eq}
use weverywhere.Config.Identity.{IdentityData}
use weverywhere.Config.Peer.{PeerMetadata, expected_key_str}
use weverywhere.Discovery.{child_depth_budget}
use weverywhere.Messages.{
  NetworkMessage, execute_request, basic_return_map, basic_return_list, basic_insecure_program_exit,
  basic_insecure_program_stdout, signed_fabric_message, Bare,
}
use weverywhere.Executor.Program.{
  ProgramData, new_builder, set_human_name, set_wasm_program_bytes, set_source, set_request_context,
  build,
}
use weverywhere.Executor.State.{Executor, observed_targets, trusts_pubkey}

-- A target: its address, and its key where it is known.
pub record Target : Type 0 where
  pub addr : SocketAddr
  pub pubkey : Option Bytes

-- `seen_addrs` is the addresses of the targets so far.
abbrev pub is_seen : SocketAddr → List Target → Bool
is_seen addr ts = any (λ t. addr_eq t.addr addr) ts

unfoldable pub add_target : List Target → Target → List Target
add_target ts t = if is_seen t.addr ts then ts else ts ++ t ∷ []

unfoldable pub add_targets : List Target → List Target → List Target
add_targets ts [] = ts
add_targets ts (u ∷ us) = add_targets (add_target ts u) us

abbrev pub observed_target : SocketAddr × Bytes → Target
observed_target (addr, pubkey) = record {
  addr = addr;
  pubkey = if is_empty pubkey then none else some pubkey;
}

-- The lookup of a configured peer's address, and the parsing of an OpenSSH public key.
pub record Resolver : Type 0 where
  pub resolve_peer_addr : PeerMetadata → Option SocketAddr
  pub public_key_to_ed25519_vk : Text → Option Bytes

module _ (resolver : Resolver) where
  abbrev pub key_of_peer : Option Text → Option Bytes
  key_of_peer none = none
  key_of_peer (some s) = resolver.public_key_to_ed25519_vk s

  unfoldable pub configured_targets : List PeerMetadata → List Target
  configured_targets [] = []
  configured_targets (p ∷ ps) =
      let rest = configured_targets ps in
      elim (resolver.resolve_peer_addr p) [
        | none ↦ rest
        | some addr ↦ record { addr = addr; pubkey = key_of_peer (expected_key_str p) } ∷ rest
      ]

  unfoldable pub targets : List PeerMetadata → Executor → List Target
  targets peers x =
      add_targets (add_targets [] (configured_targets peers))
        (map observed_target (observed_targets x))

-- The two `continue`s of the loop over the targets.
unfoldable pub is_skipped : Bytes → List Bytes → Option Bytes → Bool
is_skipped our_pubkey visited none = false
is_skipped our_pubkey visited (some pk) = bytes_eq pk our_pubkey || any (λ v. bytes_eq v pk) visited

abbrev pub we_trust : Executor → Option Bytes → Bool
we_trust x none = false
we_trust x (some pk) = trusts_pubkey x pk

unfoldable pub sub_request :
    Executor → IdentityData → Bytes → ProgramData → Target → Option ProgramData
sub_request x our_identity child_uuid incoming t = build (
    set_request_context
      (set_source
        (set_wasm_program_bytes (set_human_name new_builder incoming.human_name)
          incoming.wasm_program_bytes)
        our_identity)
      child_uuid (child_depth_budget incoming.depth_budget (we_trust x t.pubkey))
      (incoming.visited ++ x.identity_pubkey ∷ []))

-- What one target is sent, if anything.
unfoldable pub forward_to :
    Executor → IdentityData → Bytes → ProgramData → Target → List (Target × ProgramData)
forward_to x our_identity child_uuid incoming t =
    if is_skipped x.identity_pubkey incoming.visited t.pubkey
    then []
    else elim (sub_request x our_identity child_uuid incoming t) [
      | none ↦ []
      | some sub ↦ (t, sub) ∷ []
    ]

unfoldable pub forward_all :
    Executor → IdentityData → Bytes → ProgramData → List Target → List (Target × ProgramData)
forward_all x our_identity child_uuid incoming [] = []
forward_all x our_identity child_uuid incoming (t ∷ ts) =
    forward_to x our_identity child_uuid incoming t
    ++ forward_all x our_identity child_uuid incoming ts

abbrev pub uuid_or : Bytes → Option Bytes → Bytes
uuid_or fresh none = fresh
uuid_or fresh (some u) = u

-- The sub-requests that are sent, each in its own task; `fresh` is the random uuid.
unfoldable pub discovery_forward :
    Resolver
    → List PeerMetadata
    → Executor
    → Bytes
    → ProgramData
    → Option Bytes
    → List (Target × ProgramData)
discovery_forward resolver peers x fresh incoming forward_uuid = elim x.identity_data [
  | none ↦ []
  | some our_identity ↦
      forward_all x our_identity (uuid_or fresh forward_uuid) incoming (targets resolver peers x)
]

abbrev pub relay_max_ms : ℕ
relay_max_ms = 9000

abbrev pub relay_quiet_timeout_ms : ℕ
relay_quiet_timeout_ms = 1500

-- A reply with the caller's uuid in place of its own; other messages are dropped.
unfoldable pub rewritten : Bytes → NetworkMessage → Option NetworkMessage
rewritten caller_uuid (basic_return_map pid uuid cbor) =
    some (basic_return_map pid caller_uuid cbor)
rewritten caller_uuid (basic_return_list pid uuid cbor) =
    some (basic_return_list pid caller_uuid cbor)
rewritten caller_uuid (execute_request program) = none
rewritten caller_uuid (basic_insecure_program_stdout pid d) = none
rewritten caller_uuid (basic_insecure_program_exit pid code) = none
rewritten caller_uuid (signed_fabric_message source id cbor signature) = none

-- What a receive of the relay's socket gives: a datagram after a number of milliseconds, or an error.
pub data Receive : Type 0 where
  datagram : (ms : ℕ) (body : Bytes) → Receive
  socket_error : Receive

module _ (bare : Bare) (caller_uuid : Bytes) where
  abbrev pub relayed : Option NetworkMessage → List Bytes
  relayed none = []
  relayed (some m) = elim (rewritten caller_uuid m) [
    | none ↦ []
    | some out ↦ elim (bare.to_vec out) [ none ↦ [] | some b ↦ b ∷ [] ]
  ]

  -- The loop, `elapsed` milliseconds after its start: what it sends to the caller. A list that ends
  -- stands for silence.
  unfoldable pub relay : ℕ → List Receive → List Bytes
  relay elapsed [] = []
  relay elapsed (socket_error ∷ rs) = []
  relay elapsed (datagram ms body ∷ rs) =
      let later = relay (elapsed + ms) rs in
      if leb relay_max_ms elapsed
      then []
      else if leb relay_quiet_timeout_ms ms
      then []
      else relayed (bare.from_slice body) ++ later
