-- ===== src/Config/PeerLaws.antt =====
-- A loaded peer can be connected to, in the documented order of preference.
use weverywhere.Prelude.{
  ℕ, ◌≡◌, ◌↔◌, ◌≢◌, List, [], ◌∷◌, Option, none, some, arith, Text, is_empty, trim, if◌then◌else◌,
}
use weverywhere.Prelude.Ip.{v4_text, v6_text}
use weverywhere.Config.Peer.{
  PeerMetadataToml, PeerMetadata, ok, no_address, clean_hostname, try_from, connect_hosts,
}

-- What `head?` of the candidates is: the hostname, else the IPv6 address, else the IPv4 address.
abbrev pub first_choice : PeerMetadata → Option Text
first_choice p = first p.hostname p.ipv6 p.ipv4
  where
    first : Option Text → Option ℕ → Option ℕ → Option Text
    first (some h) _ _ = some h
    first none (some a) _ = some (v6_text a)
    first none none (some a) = some (v4_text a)
    first none none none = none

abbrev pub head? : List Text → Option Text
head? [] = none
head? (h ∷ hs) = some h

-- A peer entry is refused exactly if it has no IPv4 and no IPv6 address and its hostname is missing
-- or blank.
pub try_from-no_address_iff :
    (raw : PeerMetadataToml)
    → (try_from raw ≡ no_address)
      ↔ ((clean_hostname raw.hostname ≡ none) × (raw.ipv4 ≡ none) × (raw.ipv6 ≡ none))
unfolding try_from
try_from-no_address_iff raw = ground arith

clean_hostname-ne-empty : (o : Option Text) → clean_hostname o ≢ some []
clean_hostname-ne-empty none h = cc
clean_hostname-ne-empty (some t) h = filled (trim t) h
  where
    filled : (u : Text) → (if is_empty u then none else some u) ≢ some []
    filled [] e = cc
    filled (x ∷ u) e = cc

-- A peer that loads has a connection candidate, and the first to be tried is the trimmed hostname,
-- else the IPv6 address, else the IPv4 address. No hostname of a loaded peer is blank, and the
-- pinned key is the configured one.
pub try_from-connect_hosts :
    (raw : PeerMetadataToml) (p : PeerMetadata)
    → try_from raw ≡ ok p
    → (head? (connect_hosts p) ≡ first_choice p)
      × (first_choice p ≢ none)
      × (p.hostname ≢ some [])
      × (p.hostname ≡ clean_hostname raw.hostname)
      × (p.expected_key ≡ raw.expected_key)
unfolding try_from connect_hosts
try_from-connect_hosts raw p h = ground (arith, clean_hostname-ne-empty raw.hostname)
