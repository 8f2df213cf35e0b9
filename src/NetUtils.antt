-- ===== src/NetUtils.antt =====
-- src/net_utils.rs: the choice of an address, for a configured peer and of our own.
mod Laws
mod Prefix
mod Tests
use weverywhere.Prelude.{
  ℕ, zero, suc, ◌/◌, ◌%◌, ◌^◌, Bool, true, false, not, List, [], ◌∷◌, ◌++◌, Option, none, some,
  Text, ltb, ◌==◌, ◌&&◌, if◌then◌else◌,
}
use weverywhere.Prelude.Ip.{IpAddr, v4, v6, is_ipv4, is_loopback, is_unspecified, SocketAddr}
use weverywhere.Config.Peer.{PeerMetadata, connect_hosts}

-- An entry of `get_interfaces`: index, name and addresses.
pub record Interface : Type 0 where
  pub index : ℕ
  pub name : Text
  pub addrs : List IpAddr

-- `lookup_host` gives the addresses of a host at a port; `none` is an error.
unfoldable pub first_resolved : (Text → Option (List SocketAddr)) → List Text → Option SocketAddr
first_resolved lookup_host [] = none
first_resolved lookup_host (host ∷ hosts) =
    let rest = first_resolved lookup_host hosts in
    elim (lookup_host host) [
      | none ↦ rest
      | some addrs ↦ elim addrs [ [] ↦ rest | addr ∷ more ↦ some addr ]
    ]

unfoldable pub resolve_peer_addr :
    (Text → ℕ → Option (List SocketAddr)) → PeerMetadata → ℕ → Option SocketAddr
resolve_peer_addr lookup_host peer port =
    first_resolved (λ host. lookup_host host port) (connect_hosts peer)

-- `(a ^ b).leading_zeros()` of words of so many bits: the leading bits in which they agree.
unfoldable pub shared_bits : ℕ → ℕ → ℕ → ℕ
shared_bits zero a b = 0
shared_bits (suc w) a b =
    let rest = shared_bits w a b in if a / 2 ^ w % 2 == b / 2 ^ w % 2 then suc rest else 0

unfoldable pub common_prefix_bits : IpAddr → IpAddr → ℕ
common_prefix_bits (v4 a) (v4 b) = shared_bits 32 a b
common_prefix_bits (v6 a) (v6 b) = shared_bits 128 a b
common_prefix_bits _ _ = 0

abbrev pub same_family : IpAddr → IpAddr → Bool
same_family (v4 a) (v4 b) = true
same_family (v6 a) (v6 b) = true
same_family _ _ = false

-- The addresses that no `continue` skips.
unfoldable pub is_candidate : IpAddr → IpAddr → Bool
is_candidate peer addr =
    same_family addr peer
    && (not (is_unspecified addr) && not (is_loopback addr && not (is_loopback peer)))

-- `best.map_or(true, |(best_bits, _)| bits > best_bits)`.
abbrev pub beats : ℕ → Option (ℕ × IpAddr) → Bool
beats bits none = true
beats bits (some (best_bits, addr)) = ltb best_bits bits

unfoldable pub consider : IpAddr → Option (ℕ × IpAddr) → IpAddr → Option (ℕ × IpAddr)
consider peer best addr =
    if is_candidate peer addr
    then (let bits = common_prefix_bits addr peer in
        if beats bits best then some (bits, addr) else best)
    else best

unfoldable pub consider_all : IpAddr → Option (ℕ × IpAddr) → List IpAddr → Option (ℕ × IpAddr)
consider_all peer best [] = best
consider_all peer best (a ∷ addrs) = consider_all peer (consider peer best a) addrs

unfoldable pub consider_interfaces :
    IpAddr → Option (ℕ × IpAddr) → List Interface → Option (ℕ × IpAddr)
consider_interfaces peer best [] = best
consider_interfaces peer best (i ∷ interfaces) =
    consider_interfaces peer (consider_all peer best i.addrs) interfaces

abbrev pub addr_of : Option (ℕ × IpAddr) → Option IpAddr
addr_of none = none
addr_of (some (bits, addr)) = some addr

unfoldable pub local_addr_facing : List Interface → IpAddr → Option IpAddr
local_addr_facing interfaces peer = addr_of (consider_interfaces peer none interfaces)
