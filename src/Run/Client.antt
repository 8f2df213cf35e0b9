-- ===== src/Run/Client.antt =====
-- The client side of src/command/run.rs: a request is sent, and the replies are printed.
use weverywhere.Prelude.{
  ℕ, ◌+◌, ◌*◌, Bool, true, false, List, [], ◌∷◌, ◌++◌, map, Option, none, some, Bytes, Text,
  flat_map, if◌then◌else◌, is_empty, length,
}
use weverywhere.Prelude.Ip.{IpAddr, v4, is_ipv4, SocketAddr}
use weverywhere.Config.Peer.{PeerMetadata}
use weverywhere.Config.Identity.{IdentityData}
use weverywhere.Messages.{Bare}
use weverywhere.NetUtils.{Interface, resolve_peer_addr}
use weverywhere.Run.{Net, unicast, to, encode_request, request}
use weverywhere.Run.Polls.{Poll, Replies, read_replies}

-- One exchange: where the request went, and what came back.
pub record Exchange : Type 0 where
  pub sent_to : SocketAddr
  pub replies : Option Replies

-- The first count of checks, and the sizes of the two buffers.
abbrev pub first_checks : ℕ
first_checks = 24

abbrev pub reply_buffer : ℕ
reply_buffer = 16 * 1024

abbrev pub fabric_buffer : ℕ
fabric_buffer = 64 * 1024

-- `polls` is what the waits bring on the socket that sent to an address.
module _ (net : Net) (bare : Bare) (polls : SocketAddr → List Poll) where
  -- A poll adds at most ten checks.
  abbrev pub enough_fuel : List Poll → ℕ
  enough_fuel ps = first_checks + 10 * length ps + 1

  unfoldable pub read_daemon_replies : SocketAddr → Option Replies
  read_daemon_replies addr =
      read_replies bare reply_buffer (enough_fuel (polls addr)) first_checks (polls addr)

  -- The binding, the sending and the replies; `none` is an error of one of the first two.
  abbrev pub exchange : Bool → Bytes → SocketAddr → Option Replies → Option Exchange
  exchange ready bytes addr replies =
      if ready
      then if net.accepts (unicast addr bytes)
        then some (record { sent_to = addr; replies = replies })
        else none
      else none

  unfoldable pub send_to_local_daemon : Bytes → ℕ → Option Exchange
  send_to_local_daemon bytes port =
      let addr = to (v4 0x7f000001) port in
      exchange (net.binds true) bytes addr (read_daemon_replies addr)

  unfoldable pub run_one_peer : Bytes → PeerMetadata → ℕ → Option Exchange
  run_one_peer bytes peer port = elim (resolve_peer_addr net.lookup_host peer port) [
    | none ↦ none
    | some addr ↦ exchange (net.binds (is_ipv4 addr.ip)) bytes addr (read_daemon_replies addr)
  ]

  -- The socket joins the group on the interface, by each of its IPv4 addresses or by its index.
  unfoldable pub run_one_iface : Bytes → Interface → IpAddr → ℕ → Option Exchange
  run_one_iface bytes i group port =
      let addr = to group port in
      exchange (if net.binds (is_ipv4 group) then net.joins group i else false) bytes addr
        (read_replies bare fabric_buffer (enough_fuel (polls addr)) first_checks (polls addr))

  -- The tasks of `run --fabric`, in the order in which they are spawned.
  unfoldable pub fabric_tasks : Bytes → List IpAddr → ℕ → List PeerMetadata → List (Option Exchange)
  fabric_tasks bytes groups port peers =
      map (λ peer. run_one_peer bytes peer port) peers
      ++ flat_map
          (λ i.
            if is_empty i.addrs then [] else map (λ group. run_one_iface bytes i group port) groups)
          net.interfaces

  -- `run`, from the program's bytes, name and identity on; `none` is an error.
  unfoldable pub run :
      Bytes
      → IdentityData
      → Text
      → Bool
      → List IpAddr
      → ℕ
      → List Text
      → List (Text × Text)
      → List PeerMetadata
      → Option (List (Option Exchange))
  run wasm source name fabric groups port arg_list arg_map peers =
      elim (encode_request bare (request wasm source name arg_list arg_map)) [
        | none ↦ none
        | some bytes ↦
            if fabric
            then some (fabric_tasks bytes groups port peers)
            else elim (send_to_local_daemon bytes port) [
              | none ↦ none
              | some e ↦ some (some e ∷ [])
            ]
      ]
