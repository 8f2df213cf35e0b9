-- ===== src/Run.antt =====
-- src/command/run.rs: the sending of programs and messages, to the local daemon or onto the fabric.
pub mod Polls
pub mod Client
mod Shown
mod Waiting
pub mod Fabric
mod Tests
use weverywhere.Prelude.{
  ℕ, Bool, true, false, List, [], ◌∷◌, ◌++◌, Option, none, some, Bytes, Text, any, flat_map,
  if◌then◌else◌, is_empty, not,
}
use weverywhere.Prelude.Ip.{IpAddr, v4, v6, is_ipv4, SocketAddr}
use weverywhere.Config.Peer.{PeerMetadata}
use weverywhere.Config.Identity.{IdentityData}
use weverywhere.Executor.Program.{
  ProgramDataBuilder, new_builder, set_human_name, set_wasm_program_bytes, set_source, set_args,
  build,
}
use weverywhere.Messages.{Bare, execute_request}
use weverywhere.NetUtils.{Interface, resolve_peer_addr}

-- How a multicast leaves: by the interface that has an IPv4 address, or by an interface's index.
pub data Egress : Type 0 where
  multicast_if_v4 : ℕ → Egress
  multicast_if_v6 : ℕ → Egress

-- A datagram that is handed to a socket. The sockets of `run_one_iface` do not pin the interface.
pub data Send : Type 0 where
  multicast : Egress → SocketAddr → Bytes → Send
  unicast : SocketAddr → Bytes → Send

-- What the sockets of a node do: the lookup of hosts, which multicast senders can be set up, which
-- families can be bound, which groups can be joined on an interface, and which datagrams are
-- accepted.
pub record Net : Type 0 where
  pub lookup_host : Text → ℕ → Option (List SocketAddr)
  pub opens : Egress → Bool
  pub binds : Bool → Bool
  pub joins : IpAddr → Interface → Bool
  pub accepts : Send → Bool
  pub interfaces : List Interface

-- `addrs.iter().find_map(…)`.
unfoldable pub first_v4 : List IpAddr → Option ℕ
first_v4 [] = none
first_v4 (v4 a ∷ addrs) = some a
first_v4 (v6 a ∷ addrs) = first_v4 addrs

abbrev pub via_v4 : Option ℕ → Option Egress
via_v4 none = none
via_v4 (some a) = some (multicast_if_v4 a)

-- The interface by which a group is sent; `none` is a `continue`.
unfoldable pub egress : IpAddr → Interface → Option Egress
egress (v4 g) i = via_v4 (first_v4 i.addrs)
egress (v6 g) i =
    if any (λ a. not (is_ipv4 a)) i.addrs then some (multicast_if_v6 i.index) else none

abbrev pub to : IpAddr → ℕ → SocketAddr
to ip port = record { ip = ip; port = port }

abbrev pub encode_request : Bare → ProgramDataBuilder → Option Bytes
encode_request bare b = elim (build b) [ none ↦ none | some pd ↦ bare.to_vec (execute_request pd) ]

-- `let bytes = serde_bare::to_vec(…)?`, and what follows.
abbrev pub if_encoded {ℓ} : {A : Type ℓ} → (Bytes → A) → Option Bytes → Option A
if_encoded k none = none
if_encoded k (some bytes) = some (k bytes)

unfoldable pub request :
    Bytes → IdentityData → Text → List Text → List (Text × Text) → ProgramDataBuilder
request wasm source name arg_list arg_map =
    set_args (set_source (set_wasm_program_bytes (set_human_name new_builder name) wasm) source)
      arg_list arg_map

module _ (net : Net) where
  -- `sock.send_to`: the datagram, if it is accepted.
  abbrev pub handed : Send → List Send
  handed s = if net.accepts s then s ∷ [] else []

  abbrev pub multicast_via : Bytes → SocketAddr → Option Egress → List Send
  multicast_via bytes dest none = []
  multicast_via bytes dest (some e) = if net.opens e then handed (multicast e dest bytes) else []

  unfoldable pub multicasts : Bytes → ℕ → List IpAddr → List Send
  multicasts bytes port groups =
      flat_map
        (λ group.
          flat_map (λ i. multicast_via bytes (to group port) (egress group i)) net.interfaces)
        groups

  abbrev pub unicast_to : Bytes → Option SocketAddr → List Send
  unicast_to bytes none = []
  unicast_to bytes (some addr) =
      if net.binds (is_ipv4 addr.ip) then handed (unicast addr bytes) else []

  unfoldable pub unicasts : Bytes → ℕ → List PeerMetadata → List Send
  unicasts bytes port peers =
      flat_map (λ peer. unicast_to bytes (resolve_peer_addr net.lookup_host peer port)) peers

  -- What is sent; with it, whether no interface carried a multicast, which is logged.
  unfoldable pub broadcast_bytes_to_fabric :
      Bytes → List IpAddr → ℕ → List PeerMetadata → List Send × Bool
  unfolding multicasts unicasts
  broadcast_bytes_to_fabric bytes groups port peers =
      let sent = multicasts bytes port groups in (sent ++ unicasts bytes port peers, is_empty sent)

  -- `none` is an error.
  unfoldable pub broadcast_program_to_fabric :
      Bare
      → Bytes
      → IdentityData
      → Text
      → List Text
      → List (Text × Text)
      → List IpAddr
      → ℕ
      → List PeerMetadata
      → Option (List Send × Bool)
  unfolding broadcast_bytes_to_fabric request
  broadcast_program_to_fabric bare wasm source name arg_list arg_map groups port peers =
      if_encoded (λ bytes. broadcast_bytes_to_fabric bytes groups port peers)
        (encode_request bare (request wasm source name arg_list arg_map))
