-- ===== src/Run/Tests.antt =====
-- The sending of a program by a node with two interfaces and one peer, and the replies to a request.
use weverywhere.Prelude.{◌≡◌, ◌↔◌, true, List, [], ◌∷◌, none, some, Bytes, arith, In, replicate}
use weverywhere.Prelude.Ip.{IpAddr, v4, v6, SocketAddr}
use weverywhere.Foreign.BareToy.{toy_bare, toy_bare_from_slice}
use weverywhere.Config.Identity.{IdentityData}
use weverywhere.Config.Peer.{PeerMetadata}
use weverywhere.NetUtils.{Interface}
use weverywhere.Run.{Net, multicast, multicast_if_v4, to, broadcast_bytes_to_fabric}
use weverywhere.Run.Polls.{Poll, datagram, timed_out, Printed}
use weverywhere.Run.Client.{read_daemon_replies}
use weverywhere.Run.Fabric.{Due, broadcast_bytes_to_fabric-Due}
use weverywhere.Run.Shown.{AreShown}
use weverywhere.Run.Waiting.{read_daemon_replies-AreShown}

abbrev lan : Interface
lan = record { index = 2; name = 108 ∷ []; addrs = v6 9 ∷ v4 0x0a000005 ∷ [] }

abbrev net : Net
net = record {
  lookup_host = λ host port. some (record { ip = v6 1; port = port } ∷ []);
  opens = λ e. true;
  binds = λ ipv4. true;
  joins = λ group i. true;
  accepts = λ s. true;
  interfaces = record { index = 1; name = []; addrs = [] } ∷ lan ∷ [];
}

abbrev group : IpAddr
group = v4 0xe0000003

abbrev peer : PeerMetadata
peer = record { hostname = some (112 ∷ []); ipv6 = none; ipv4 = none; expected_key = none }

broadcast_bytes_to_fabric-Due_example :
    let s = multicast (multicast_if_v4 0x0a000005) (to group 2240) (1 ∷ []) in
    In s (broadcast_bytes_to_fabric net (1 ∷ []) (group ∷ []) 2240 (peer ∷ [])).0
    ↔ Due net (1 ∷ []) (group ∷ []) 2240 (peer ∷ []) s
broadcast_bytes_to_fabric-Due_example =
    broadcast_bytes_to_fabric-Due net (1 ∷ []) (group ∷ []) 2240 (peer ∷ [])
      (multicast (multicast_if_v4 0x0a000005) (to group 2240) (1 ∷ []))

-- A program that leaves, an exit code, and what the node makes of it: three checks are left of the
-- first, and ten are added.
abbrev exit_polls : SocketAddr → List Poll
exit_polls a = timed_out ∷ datagram (1 ∷ 5 ∷ 0 ∷ []) ∷ []

abbrev daemon : SocketAddr
daemon = to (v4 0x7f000001) 2240

read_daemon_replies-AreShown_example :
    (printed : List Printed) × (read_daemon_replies net toy_bare exit_polls daemon
      ≡ some (record { printed = printed; timeouts = 33 }))
    × AreShown toy_bare (exit_polls daemon) printed
unfolding toy_bare_from_slice
read_daemon_replies-AreShown_example =
    read_daemon_replies-AreShown net toy_bare exit_polls daemon (omega arith) (omega arith)
      (tt, (omega arith, tt))

abbrev alice : IdentityData
alice = record {
  human_name = 97 ∷ [];
  generated_at_utc0_epoch_s = 1;
  validity_s = 2;
  encoded_public_key_fmt = [];
  encoded_public_key = 3 ∷ [];
  signature = 4 ∷ [];
}

abbrev sent_bytes : Bytes
sent_bytes = 5 ∷ 0 ∷ 1 ∷ 2 ∷ 1 ∷ 97 ∷ 0 ∷ 1 ∷ 3 ∷ 1 ∷ 4 ∷ 0 ∷ 2 ∷ 0 ∷ 97 ∷ 16 ∷ replicate 16 0
