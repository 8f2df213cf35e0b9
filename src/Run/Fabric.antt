-- ===== src/Run/Fabric.antt =====
-- What src/command/run.rs sends onto the fabric: to each group by each interface that can carry it,
-- and to each configured peer that resolves.
use weverywhere.Prelude.{
  ℕ, ◌≡◌, refl, sym, ap, ◌∙◌, ◌↔◌, inl, inr, Bool, true, false, List, [], ◌∷◌, Option, none, some,
  Bytes, Text, replicate, if◌then◌else◌, In, at_head, in_tail, In-left, In-right, In-append,
  In-flat_map, flat_map-In, Option-cases, subst, some_inj, any, not, Bool-cases, arith,
}
use weverywhere.Prelude.Ip.{IpAddr, v4, v6, is_ipv4, SocketAddr}
use weverywhere.Config.Peer.{PeerMetadata}
use weverywhere.Config.Identity.{IdentityData}
use weverywhere.Messages.{Bare, execute_request}
use weverywhere.Executor.Program.{
  ProgramData, build, new_builder, set_args, set_source, set_wasm_program_bytes, set_human_name,
}
use weverywhere.NetUtils.{Interface, resolve_peer_addr}
use weverywhere.Run.{
  Net, Send, Egress, multicast_if_v4, multicast_if_v6, first_v4, via_v4, multicast, unicast, egress,
  to, multicast_via, unicast_to, multicasts, unicasts, broadcast_bytes_to_fabric, request,
  if_encoded, broadcast_program_to_fabric,
}

In-if {ℓ} :
    {A : Type ℓ} {a : A} (b : Bool) (xs : List A)
    → In a (if b then xs else [])
    → (b ≡ true) × In a xs
In-if true xs m = (refl, m)
In-if false xs m = elim m [ ]

In-one {ℓ} : {A : Type ℓ} {a x : A} → In a (x ∷ []) → a ≡ x
In-one (at_head e) = e
In-one (in_tail m) = elim m [ ]

-- The first IPv4 address of a list.
abbrev pub IsFirstV4 : ℕ → List IpAddr → Type 0
IsFirstV4 a [] = ⊥
IsFirstV4 a (v4 b ∷ addrs) = a ≡ b
IsFirstV4 a (v6 b ∷ addrs) = IsFirstV4 a addrs

-- How an interface carries a group: for an IPv4 group by its first IPv4 address, for an IPv6 group by
-- its index, if it has an IPv6 address.
abbrev pub Carries : IpAddr → Interface → Egress → Type 0
Carries (v4 g) i (multicast_if_v4 a) = IsFirstV4 a i.addrs
Carries (v6 g) i (multicast_if_v6 n) = (n ≡ i.index) × ((a : ℕ) × In (v6 a) i.addrs)
Carries (v4 g) i (multicast_if_v6 n) = ⊥
Carries (v6 g) i (multicast_if_v4 a) = ⊥

first_v4_iff : (a : ℕ) (addrs : List IpAddr) → (first_v4 addrs ≡ some a) ↔ IsFirstV4 a addrs
unfolding first_v4
first_v4_iff a [] = ground arith
first_v4_iff a (v4 b ∷ addrs) = (λ e. sym (some_inj e), λ e. ap some (sym e))
first_v4_iff a (v6 b ∷ addrs) = first_v4_iff a addrs

any-In : (addrs : List IpAddr) → any (λ a. not (is_ipv4 a)) addrs ≡ true → (a : ℕ) × In (v6 a) addrs
any-In [] h = absurd cc
any-In (v6 a ∷ addrs) h = (a, at_head refl)
any-In (v4 b ∷ addrs) h = let (a, m) = any-In addrs h in (a, in_tail m)

In-any : (a : ℕ) (addrs : List IpAddr) → In (v6 a) addrs → any (λ a. not (is_ipv4 a)) addrs ≡ true
In-any a [] m = elim m [ ]
In-any a (v6 b ∷ addrs) m = refl
In-any a (v4 b ∷ addrs) (at_head e) = absurd cc
In-any a (v4 b ∷ addrs) (in_tail m) = In-any a addrs m

egress-Carries :
    (group : IpAddr) (i : Interface) (e : Egress) → egress group i ≡ some e → Carries group i e
unfolding egress
egress-Carries (v4 g) i (multicast_if_v4 a) h = elim (Option-cases (first_v4 i.addrs)) [
  | inl f ↦ absurd (cc (sym (ap via_v4 f) ∙ h))
  | inr (b, f) ↦
      let same : multicast_if_v4 b ≡ multicast_if_v4 a = some_inj (sym (ap via_v4 f) ∙ h) in
      let eq : b ≡ a = cc in (first_v4_iff a i.addrs).0 (f ∙ ap some eq)
]
egress-Carries (v4 g) i (multicast_if_v6 n) h = elim (Option-cases (first_v4 i.addrs)) [
  | inl f ↦ cc (sym (ap via_v4 f) ∙ h)
  | inr (b, f) ↦ cc (sym (ap via_v4 f) ∙ h)
]
egress-Carries (v6 g) i (multicast_if_v6 n) h =
    elim (Bool-cases (any (λ a. not (is_ipv4 a)) i.addrs)) [
      | inl has ↦ (cc (rw has at h), any-In i.addrs has)
      | inr none_has ↦ absurd (cc (rw none_has at h))
    ]
egress-Carries (v6 g) i (multicast_if_v4 a) h =
    elim (Bool-cases (any (λ a. not (is_ipv4 a)) i.addrs)) [
      | inl has ↦ cc (rw has at h)
      | inr none_has ↦ cc (rw none_has at h)
    ]

Carries-egress :
    (group : IpAddr) (i : Interface) (e : Egress) → Carries group i e → egress group i ≡ some e
unfolding egress
Carries-egress (v4 g) i (multicast_if_v4 a) h = ap via_v4 ((first_v4_iff a i.addrs).1 h)
Carries-egress (v6 g) i (multicast_if_v6 n) (e, (a, m)) =
    rw (In-any a i.addrs m) (ap (λ n. some (multicast_if_v6 n)) (sym e))
Carries-egress (v4 g) i (multicast_if_v6 n) h = elim h [ ]
Carries-egress (v6 g) i (multicast_if_v4 a) h = elim h [ ]

module _ (net : Net) (bytes : Bytes) (groups : List IpAddr) (port : ℕ)
    (peers : List PeerMetadata) where
  -- What is due: a multicast to each group by each interface that carries it and whose socket can be
  -- set up, and a unicast to the address of each peer that resolves to one that can be bound
  -- for; in both cases what the socket accepts.
  pub data Due : Send → Type 0 where
    to_group :
        (group : IpAddr) (i : Interface) (e : Egress)
        → In group groups
        → In i net.interfaces
        → Carries group i e
        → net.opens e ≡ true
        → net.accepts (multicast e (to group port) bytes) ≡ true
        → Due (multicast e (to group port) bytes)
    to_peer :
        (peer : PeerMetadata) (addr : SocketAddr)
        → In peer peers
        → resolve_peer_addr net.lookup_host peer port ≡ some addr
        → net.binds (is_ipv4 addr.ip) ≡ true
        → net.accepts (unicast addr bytes) ≡ true
        → Due (unicast addr bytes)

  pub Due-In : (s : Send) → Due s → In s (broadcast_bytes_to_fabric net bytes groups port peers).0
  unfolding broadcast_bytes_to_fabric multicasts unicasts
  Due-In s (to_group group i e g j ee o a) =
      In-left s (multicasts net bytes port groups) (unicasts net bytes port peers) (
        flat_map-In _ group s groups g (
          flat_map-In _ i s net.interfaces j (
            subst (λ x. In s (multicast_via net bytes (to group port) x))
              (sym (Carries-egress group i e ee)) (rw (o, a) (at_head refl)))))
  Due-In s (to_peer peer addr p r b a) =
      In-right s (multicasts net bytes port groups) (unicasts net bytes port peers) (
        flat_map-In _ peer s peers p
          (subst (λ x. In s (unicast_to net bytes x)) (sym r) (rw (b, a) (at_head refl))))

  multicast-Due :
      (s : Send) (group : IpAddr) (i : Interface) (x : Option Egress)
      → In group groups
      → In i net.interfaces
      → egress group i ≡ x
      → In s (multicast_via net bytes (to group port) x)
      → Due s
  multicast-Due s group i none g j ee m = elim m [ ]
  multicast-Due s group i (some e) g j ee m =
      let (o, m') = In-if (net.opens e) _ m in
      let (a, m'') = In-if (net.accepts (multicast e (to group port) bytes)) _ m' in
      subst Due (sym (In-one m'')) (to_group group i e g j (egress-Carries group i e ee) o a)

  unicast-Due :
      (s : Send) (peer : PeerMetadata) (x : Option SocketAddr)
      → In peer peers
      → resolve_peer_addr net.lookup_host peer port ≡ x
      → In s (unicast_to net bytes x)
      → Due s
  unicast-Due s peer none p r m = elim m [ ]
  unicast-Due s peer (some addr) p r m =
      let (b, m') = In-if (net.binds (is_ipv4 addr.ip)) _ m in
      let (a, m'') = In-if (net.accepts (unicast addr bytes)) _ m' in
      subst Due (sym (In-one m'')) (to_peer peer addr p r b a)

  pub In-Due : (s : Send) → In s (broadcast_bytes_to_fabric net bytes groups port peers).0 → Due s
  unfolding broadcast_bytes_to_fabric multicasts unicasts
  In-Due s m =
      elim (In-append s (multicasts net bytes port groups) (unicasts net bytes port peers) m) [
        | inl l ↦
            let (group, g, l') = In-flat_map _ s groups l in
            let (i, j, l'') = In-flat_map _ s net.interfaces l' in
            multicast-Due s group i (egress group i) g j refl l''
        | inr r ↦
            let (peer, p, r') = In-flat_map _ s peers r in
            unicast-Due s peer (resolve_peer_addr net.lookup_host peer port) p refl r'
      ]

  -- A broadcast sends just what is due: to every group by every interface with
  -- an address of its family, one that
  -- fails keeping no other back, and to every configured peer that resolves; and nothing else.
  pub broadcast_bytes_to_fabric-Due :
      (s : Send) → In s (broadcast_bytes_to_fabric net bytes groups port peers).0 ↔ Due s
  broadcast_bytes_to_fabric-Due s = (In-Due s, Due-In s)

-- The program of a source with its arguments, as it leaves for the fabric.
abbrev pub IsCopy : Bytes → IdentityData → List Text → List (Text × Text) → ProgramData → Type 0
IsCopy wasm source arg_list arg_map pd =
    (pd.wasm_program_bytes ≡ wasm)
    × (pd.source ≡ source)
    × (pd.arg_list ≡ arg_list)
    × (pd.arg_map ≡ arg_map)
    × (pd.depth_budget ≡ 0)
    × (pd.visited ≡ [])

-- What a broadcast program carries: the request that every receiver decodes holds the program, its
-- source and the arguments; its depth budget is 0 and it names no visited node.
pub broadcast_program_to_fabric-request :
    (net : Net) (bare : Bare) (wasm : Bytes) (source : IdentityData) (name : Text)
    (arg_list : List Text) (arg_map : List (Text × Text)) (groups : List IpAddr) (port : ℕ)
    (peers : List PeerMetadata) (r : List Send × Bool)
    → broadcast_program_to_fabric net bare wasm source name arg_list arg_map groups port peers
      ≡ some r
    → (bytes : Bytes) × (pd : ProgramData) × (r
        ≡ broadcast_bytes_to_fabric net bytes groups port peers)
      × (bare.from_slice bytes ≡ some (execute_request pd))
      × IsCopy wasm source arg_list arg_map pd
unfolding broadcast_program_to_fabric request build new_builder set_args set_source
    set_wasm_program_bytes set_human_name
broadcast_program_to_fabric-request net bare wasm source name arg_list arg_map groups port peers r
      h =
    let send = λ (b : Bytes). broadcast_bytes_to_fabric net b groups port peers in
    let pd : ProgramData = record {
      source = source;
      human_name = name;
      wasm_program_bytes = wasm;
      signature = [];
      request_uuid = replicate 16 0;
      depth_budget = 0;
      visited = [];
      arg_list = arg_list;
      arg_map = arg_map;
    } in
    elim (Option-cases (bare.to_vec (execute_request pd))) [
      | inl e ↦ cc (sym (ap (if_encoded send) e) ∙ h)
      | inr (b, e) ↦ (
        b,
        pd,
        cc (sym (ap (if_encoded send) e) ∙ h),
        bare.round_trip (execute_request pd) b e,
        (refl, refl, refl, refl, refl, refl),
      )
    ]
