-- ===== src/Netmap/Discover.antt =====
-- The sending side of `netmap` in src/command/netmap.rs: the request for discovery, and the depth
-- budget that each target is given.
use weverywhere.Prelude.{
  ℕ, Bool, false, List, [], ◌∷◌, ◌++◌, Option, none, some, Bytes, Text, if◌then◌else◌, is_empty,
  member, flat_map,
}
use weverywhere.Prelude.Ip.{IpAddr, v4, is_ipv4, SocketAddr}
use weverywhere.Config.Identity.{IdentityData}
use weverywhere.Config.Peer.{PeerMetadata, expected_key_str}
use weverywhere.Discovery.{initial_depth_budget, untrusted_forward_depth}
use weverywhere.Executor.Program.{
  ProgramDataBuilder, new_builder, set_human_name, set_wasm_program_bytes, set_source,
  set_request_context,
}
use weverywhere.Messages.{Bare}
use weverywhere.NetUtils.{Interface, resolve_peer_addr}
use weverywhere.Run.{encode_request, to}

-- What `netmap` reads and asks first: the program, our identity and key (empty if there is none), the
-- configured trusted keys and peers, and the uuid. `parse_key` is `public_key_to_ed25519_vk`.
pub record Survey : Type 0 where
  pub wasm : Bytes
  pub name : Text
  pub source : IdentityData
  pub our_pubkey : Bytes
  pub trusted_keys : List Text
  pub peers : List PeerMetadata
  pub request_uuid : Bytes
  pub interfaces : List Interface
  pub has_v6 : Bool
  pub lookup_host : Text → ℕ → Option (List SocketAddr)
  pub parse_key : Text → Option Bytes

abbrev pub unless_none : Option Bytes → List Bytes
unless_none none = []
unless_none (some k) = k ∷ []

-- `if !our_pubkey.is_empty() { … }`.
abbrev pub own : Bytes → List Bytes
own k = if is_empty k then [] else k ∷ []

module _ (s : Survey) where
  -- The set of trusted keys.
  unfoldable pub trusted : List Bytes
  trusted = own s.our_pubkey ++ flat_map (λ t. unless_none (s.parse_key t)) s.trusted_keys

  unfoldable pub visited_init : List Bytes
  visited_init = own s.our_pubkey

  unfoldable pub request_builder : ℕ → ProgramDataBuilder
  unfolding visited_init
  request_builder depth =
      set_request_context
        (set_source (set_wasm_program_bytes (set_human_name new_builder s.name) s.wasm) s.source)
        s.request_uuid depth visited_init

  unfoldable pub make_request : Bare → ℕ → Option Bytes
  unfolding request_builder
  make_request bare depth = encode_request bare (request_builder depth)

  abbrev pub trusts_parsed : Option Bytes → Bool
  trusts_parsed none = false
  trusts_parsed (some k) = member k trusted

  abbrev pub trusts_key : Option Text → Bool
  trusts_key none = false
  trusts_key (some text) = trusts_parsed (s.parse_key text)

  unfoldable pub peer_trusted : PeerMetadata → Bool
  unfolding trusted
  peer_trusted peer = trusts_key (expected_key_str peer)

  -- The socket of the address' family: the one for IPv6 may be missing.
  abbrev pub sent : SocketAddr → Bytes → List (SocketAddr × Bytes)
  sent addr req =
      if is_ipv4 addr.ip then (addr, req) ∷ [] else if s.has_v6 then (addr, req) ∷ [] else []

  unfoldable pub to_groups : Bytes → List IpAddr → ℕ → List (SocketAddr × Bytes)
  to_groups req groups port =
      flat_map
        (λ i. if is_empty i.addrs then [] else flat_map (λ group. sent (to group port) req) groups)
        s.interfaces

  -- A peer that does not resolve is passed over; a request that is not encoded ends the command.
  abbrev pub and_rest :
      SocketAddr → Option Bytes → List (SocketAddr × Bytes) → List (SocketAddr × Bytes)
  and_rest addr none rest = []
  and_rest addr (some req) rest = sent addr req ++ rest

  abbrev pub to_peer :
      Bare
      → PeerMetadata
      → Option SocketAddr
      → List (SocketAddr × Bytes)
      → List (SocketAddr × Bytes)
  to_peer bare peer none rest = rest
  to_peer bare peer (some addr) rest =
      and_rest addr (make_request bare (initial_depth_budget (peer_trusted peer))) rest

  unfoldable pub to_peers : Bare → List PeerMetadata → ℕ → List (SocketAddr × Bytes)
  to_peers bare [] port = []
  to_peers bare (p ∷ ps) port =
      to_peer bare p (resolve_peer_addr s.lookup_host p port) (to_peers bare ps port)

  abbrev pub to_all : Bare → Bool → List IpAddr → ℕ → Option Bytes → List (SocketAddr × Bytes)
  to_all bare local groups port none = []
  to_all bare local groups port (some req) =
      if local
      then (to (v4 0x7f000001) port, req) ∷ []
      else to_groups req groups port ++ to_peers bare s.peers port

  -- The datagrams that are sent.
  unfoldable pub discover : Bare → Bool → List IpAddr → ℕ → List (SocketAddr × Bytes)
  unfolding to_groups to_peers
  discover bare local groups port =
      to_all bare local groups port (make_request bare untrusted_forward_depth)
