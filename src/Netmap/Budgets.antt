-- ===== src/Netmap/Budgets.antt =====
-- The budgets of the discovery requests that src/command/netmap.rs sends.
use weverywhere.Prelude.{
  ℕ, ◌≡◌, ◌≢◌, ◌⊎◌, inl, inr, refl, sym, ap, arith, member, bytes_eq, bytes_eq_iff, Bool-cases,
  Text, In-append, In-flat_map, Bool, true, false, List, [], ◌∷◌, Option, none, some, Bytes,
  is_empty, All, All-append, All-if, All-flat_map, In, at_head, in_tail, is_empty,
}
use weverywhere.Prelude.Ip.{IpAddr, is_ipv4, SocketAddr}
use weverywhere.Config.Peer.{PeerMetadata, expected_key_str}
use weverywhere.Discovery.{initial_depth_budget, untrusted_forward_depth, trusted_forward_depth}
use weverywhere.Executor.Program.{
  ProgramData, new_builder, set_human_name, set_wasm_program_bytes, set_source, set_request_context,
  build,
}
use weverywhere.Messages.{Bare, execute_request}
use weverywhere.NetUtils.{resolve_peer_addr}
use weverywhere.Run.{to}
use weverywhere.Netmap.Discover.{
  Survey, own, unless_none, trusted, trusts_parsed, trusts_key, make_request, peer_trusted, sent,
  to_groups, to_peer, to_peers, to_all, and_rest, discover,
}

module _ (s : Survey) (bare : Bare) (port : ℕ) where
  -- The request that a datagram holds, with its depth budget.
  abbrev pub Holds : ℕ → Bytes → Type 0
  Holds depth b =
      (pd : ProgramData) × (bare.from_slice b ≡ some (execute_request pd))
      × (pd.depth_budget ≡ depth)
      × (pd.request_uuid ≡ s.request_uuid)
      × (pd.visited ≡ own s.our_pubkey)
      × (pd.wasm_program_bytes ≡ s.wasm)

  -- A key that is trusted: our own, or that of a configured trusted key which is parsed.
  abbrev pub IsTrustedKey : Bytes → Type 0
  IsTrustedKey key =
      ((key ≡ s.our_pubkey) × (s.our_pubkey ≢ []))
      ⊎ ((t : Text) × In t s.trusted_keys × (s.parse_key t ≡ some key))

  -- A peer with a pinned key that is trusted.
  abbrev pub IsPinned : PeerMetadata → Type 0
  IsPinned peer =
      (t : Text) × (key : Bytes) × (expected_key_str peer ≡ some t)
      × (s.parse_key t ≡ some key)
      × IsTrustedKey key

  In-own : (key ours : Bytes) → In key (own ours) → (key ≡ ours) × (ours ≢ [])
  In-own key [] m = elim m [ ]
  In-own key (x ∷ xs) (at_head e) = (e, λ empty. absurd cc)
  In-own key (x ∷ xs) (in_tail m) = elim m [ ]

  In-unless_none : (key : Bytes) (o : Option Bytes) → In key (unless_none o) → o ≡ some key
  In-unless_none key none m = elim m [ ]
  In-unless_none key (some k) (at_head e) = ap some (sym e)
  In-unless_none key (some k) (in_tail m) = elim m [ ]

  member-In : (key : Bytes) (ks : List Bytes) → member key ks ≡ true → In key ks
  member-In key [] h = absurd cc
  member-In key (k ∷ ks) h = elim (Bool-cases (bytes_eq k key)) [
    | inl same ↦ at_head (sym ((bytes_eq_iff k key).0 same))
    | inr other ↦ in_tail (member-In key ks (ground arith))
  ]

  trusted-IsTrustedKey : (key : Bytes) → member key (trusted s) ≡ true → IsTrustedKey key
  unfolding trusted
  trusted-IsTrustedKey key h = elim (In-append key (own s.our_pubkey) _ (member-In key _ h)) [
    | inl l ↦ inl (In-own key s.our_pubkey l)
    | inr r ↦
        let (t, among, found) = In-flat_map _ key s.trusted_keys r in
        inr (t, among, In-unless_none key (s.parse_key t) found)
  ]

  trusts_parsed-IsTrustedKey :
      (o : Option Bytes)
      → trusts_parsed s o ≡ true
      → (key : Bytes) × (o ≡ some key) × IsTrustedKey key
  trusts_parsed-IsTrustedKey none h = absurd cc
  trusts_parsed-IsTrustedKey (some key) h = (key, refl, trusted-IsTrustedKey key h)

  trusts_key-pinned :
      (o : Option Text)
      → trusts_key s o ≡ true
      → (t : Text) × (key : Bytes) × (o ≡ some t) × (s.parse_key t ≡ some key) × IsTrustedKey key
  trusts_key-pinned none h = absurd cc
  trusts_key-pinned (some t) h =
      let (key, e, trusts) = trusts_parsed-IsTrustedKey (s.parse_key t) h in
      (t, key, refl, e, trusts)

  peer_trusted-IsPinned : (peer : PeerMetadata) → peer_trusted s peer ≡ true → IsPinned peer
  unfolding peer_trusted
  peer_trusted-IsPinned peer h = trusts_key-pinned (expected_key_str peer) h

  -- A datagram with the budget that its target may have.
  pub data IsGranted (d : SocketAddr × Bytes) : Type 0 where
    untrusted : Holds untrusted_forward_depth d.1 → IsGranted d
    pinned :
        (peer : PeerMetadata)
        → In peer s.peers
        → resolve_peer_addr s.lookup_host peer port ≡ some d.0
        → IsPinned peer
        → Holds trusted_forward_depth d.1
        → IsGranted d

  make_request-Holds : (depth : ℕ) (b : Bytes) → make_request s bare depth ≡ some b → Holds depth b
  unfolding make_request build new_builder set_human_name set_wasm_program_bytes set_source
      set_request_context
  make_request-Holds depth b h = (_, bare.round_trip _ b h, refl, refl, refl, refl)

  sent-All :
      (addr : SocketAddr) (req : Bytes) → IsGranted (addr, req) → All IsGranted (sent s addr req)
  sent-All addr req g =
      All-if IsGranted (is_ipv4 addr.ip) _ _ (g, tt) (All-if IsGranted s.has_v6 _ [] (g, tt) tt)

  to_groups-All :
      (groups : List IpAddr) (req : Bytes)
      → Holds untrusted_forward_depth req
      → All IsGranted (to_groups s req groups port)
  unfolding to_groups
  to_groups-All groups req h = All-flat_map IsGranted _ s.interfaces λ i.
      All-if IsGranted (is_empty i.addrs) [] _ tt
        (All-flat_map IsGranted _ groups λ group. sent-All (to group port) req (untrusted h))

  -- Of one peer, the budget that its key deserves.
  peer-IsGranted :
      (peer : PeerMetadata) (addr : SocketAddr) (req : Bytes) (t : Bool)
      → In peer s.peers
      → resolve_peer_addr s.lookup_host peer port ≡ some addr
      → peer_trusted s peer ≡ t
      → Holds (initial_depth_budget t) req
      → IsGranted (addr, req)
  unfolding initial_depth_budget
  peer-IsGranted peer addr req true among r t h =
      pinned peer among r (peer_trusted-IsPinned peer t) h
  peer-IsGranted peer addr req false among r t h = untrusted h

  and_rest-All :
      (peer : PeerMetadata) (addr : SocketAddr) (rest : List (SocketAddr × Bytes))
      (o : Option Bytes)
      → In peer s.peers
      → resolve_peer_addr s.lookup_host peer port ≡ some addr
      → make_request s bare (initial_depth_budget (peer_trusted s peer)) ≡ o
      → All IsGranted rest
      → All IsGranted (and_rest s addr o rest)
  and_rest-All peer addr rest none among r e h = tt
  and_rest-All peer addr rest (some req) among r e h =
      All-append IsGranted (sent s addr req) rest
        (sent-All addr req (
          peer-IsGranted peer addr req (peer_trusted s peer) among r refl
            (make_request-Holds _ req e)))
        h

  to_peer-All :
      (peer : PeerMetadata) (rest : List (SocketAddr × Bytes)) (o : Option SocketAddr)
      → In peer s.peers
      → resolve_peer_addr s.lookup_host peer port ≡ o
      → All IsGranted rest
      → All IsGranted (to_peer s bare peer o rest)
  to_peer-All peer rest none among r h = h
  to_peer-All peer rest (some addr) among r h = and_rest-All peer addr rest _ among r refl h

  to_peers-All :
      (ps : List PeerMetadata)
      → ((peer : PeerMetadata) → In peer ps → In peer s.peers)
      → All IsGranted (to_peers s bare ps port)
  unfolding to_peers
  to_peers-All [] sub = tt
  to_peers-All (p ∷ ps) sub =
      to_peer-All p (to_peers s bare ps port) _ (sub p (at_head refl)) refl
        (to_peers-All ps (λ peer among. sub peer (in_tail among)))

  to_all-All :
      (local : Bool) (groups : List IpAddr) (o : Option Bytes)
      → make_request s bare untrusted_forward_depth ≡ o
      → All IsGranted (to_all s bare local groups port o)
  to_all-All local groups none e = tt
  to_all-All local groups (some req) e =
      let h = make_request-Holds untrusted_forward_depth req e in
      All-if IsGranted local _ _ (untrusted h, tt)
        (All-append IsGranted (to_groups s req groups port) _ (to_groups-All groups req h)
          (to_peers-All s.peers (λ peer among. among)))

  -- Every datagram that a survey sends holds a request for its program, under its uuid and with our own
  -- key as the only visited one, and the larger budget goes to no other address than that of a
  -- configured peer whose pinned key is trusted, which is our own or that of a configured trusted
  -- key; all others get the smaller.
  pub discover-IsGranted :
      (local : Bool) (groups : List IpAddr) → All IsGranted (discover s bare local groups port)
  unfolding discover
  discover-IsGranted local groups = to_all-All local groups _ refl
