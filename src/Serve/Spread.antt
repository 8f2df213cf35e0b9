-- ===== src/Serve/Spread.antt =====
-- How far a discovery request spreads: whom a node forwards it to, and what it grants them.
use weverywhere.Prelude.{
  ◌≡◌, refl, sym, subst, inl, inr, Bool, false, List, [], ◌∷◌, ◌++◌, Option, none, some, Bool-cases,
  Bytes, arith, any, bytes_eq, All, All-append,
}
use weverywhere.Prelude.Ip.{addr_eq}
use weverywhere.Config.Identity.{IdentityData}
use weverywhere.Config.Peer.{PeerMetadata}
use weverywhere.Discovery.{child_depth_budget}
use weverywhere.Executor.Program.{
  ProgramData, new_builder, set_human_name, set_wasm_program_bytes, set_source, set_request_context,
  build,
}
use weverywhere.Executor.State.{Executor}
use weverywhere.Serve.Forward.{
  Target, Resolver, is_seen, add_target, add_targets, targets, is_skipped, we_trust, sub_request,
  forward_to, forward_all, discovery_forward, uuid_or,
}

-- A forwarded request leads on: it goes neither back to this node nor to a node on its path, as far
-- as the target's key is known; it carries the path with this node's key added, the granted budget,
-- this node's identity and the program it came with.
pub record LeadsOn (x : Executor) (our_identity : IdentityData) (incoming : ProgramData)
    (r : Target × ProgramData) : Type 0 where
  pub elsewhere :
      (pk : Bytes)
      → r.0.pubkey ≡ some pk
      → (bytes_eq pk x.identity_pubkey ≡ false)
        × (any (λ v. bytes_eq v pk) incoming.visited ≡ false)
  pub path : r.1.visited ≡ incoming.visited ++ x.identity_pubkey ∷ []
  pub budget : r.1.depth_budget ≡ child_depth_budget incoming.depth_budget (we_trust x r.0.pubkey)
  pub signed_by : r.1.source ≡ our_identity
  pub same_program : r.1.wasm_program_bytes ≡ incoming.wasm_program_bytes

is_skipped-elsewhere :
    (ours pk : Bytes) (visited : List Bytes) (o : Option Bytes)
    → is_skipped ours visited o ≡ false
    → o ≡ some pk
    → (bytes_eq pk ours ≡ false) × (any (λ v. bytes_eq v pk) visited ≡ false)
unfolding is_skipped
is_skipped-elsewhere ours pk visited none h e = absurd cc
is_skipped-elsewhere ours pk visited (some q) h e = ground arith

forward_to-LeadsOn :
    (x : Executor) (our_identity : IdentityData) (uuid : Bytes) (incoming : ProgramData)
    (t : Target)
    → All (LeadsOn x our_identity incoming) (forward_to x our_identity uuid incoming t)
unfolding forward_to sub_request build set_request_context set_source set_wasm_program_bytes
    set_human_name new_builder
forward_to-LeadsOn x our_identity uuid incoming t =
    elim (Bool-cases (is_skipped x.identity_pubkey incoming.visited t.pubkey)) [
      | inl skipped ↦ rw skipped tt
      | inr kept ↦ rw kept (
        record {
          elsewhere =
              λ pk. is_skipped-elsewhere x.identity_pubkey pk incoming.visited t.pubkey kept;
          path = refl;
          budget = refl;
          signed_by = refl;
          same_program = refl;
        },
        tt,
      )
    ]

forward_all-LeadsOn :
    (x : Executor) (our_identity : IdentityData) (uuid : Bytes) (incoming : ProgramData)
    (ts : List Target)
    → All (LeadsOn x our_identity incoming) (forward_all x our_identity uuid incoming ts)
unfolding forward_all
forward_all-LeadsOn x our_identity uuid incoming [] = tt
forward_all-LeadsOn x our_identity uuid incoming (t ∷ ts) =
    All-append (LeadsOn x our_identity incoming) (forward_to x our_identity uuid incoming t) _
      (forward_to-LeadsOn x our_identity uuid incoming t)
      (forward_all-LeadsOn x our_identity uuid incoming ts)

discovery_forward-known :
    (resolver : Resolver) (peers : List PeerMetadata) (x : Executor) (our_identity : IdentityData)
    (fresh : Bytes) (incoming : ProgramData) (forward_uuid : Option Bytes)
    → x.identity_data ≡ some our_identity
    → discovery_forward resolver peers x fresh incoming forward_uuid
      ≡ forward_all x our_identity (uuid_or fresh forward_uuid) incoming (targets resolver peers x)
unfolding discovery_forward
discovery_forward-known resolver peers x our_identity fresh incoming forward_uuid h = ground arith

-- Every request that a node forwards leads on: it goes neither back to this node nor to a node on its
-- path, as far as the target's key is known; and it carries the path with this node's key added, the
-- budget that the node grants the target, this node's identity and the program it came with.
pub discovery_forward-LeadsOn :
    (resolver : Resolver) (peers : List PeerMetadata) (x : Executor) (our_identity : IdentityData)
    (fresh : Bytes) (incoming : ProgramData) (forward_uuid : Option Bytes)
    → x.identity_data ≡ some our_identity
    → All
        (LeadsOn x our_identity incoming)
        (discovery_forward resolver peers x fresh incoming forward_uuid)
discovery_forward-LeadsOn resolver peers x our_identity fresh incoming forward_uuid h =
    subst (All (LeadsOn x our_identity incoming))
      (sym (discovery_forward-known resolver peers x our_identity fresh incoming forward_uuid h))
      (forward_all-LeadsOn x our_identity (uuid_or fresh forward_uuid) incoming
        (targets resolver peers x))

-- No later target has the address of an earlier one.
abbrev pub DistinctAddrs : List Target → Type 0
DistinctAddrs [] = Unit
DistinctAddrs (t ∷ ts) = (any (λ u. addr_eq t.addr u.addr) ts ≡ false) × DistinctAddrs ts

any_snoc :
    (p : Target → Bool) (ts : List Target) (u : Target)
    → any p ts ≡ false
    → p u ≡ false
    → any p (ts ++ u ∷ []) ≡ false
any_snoc p [] u h k = ground arith
any_snoc p (t ∷ ts) u h k = ground (arith, any_snoc p ts u)

DistinctAddrs-snoc :
    (ts : List Target) (u : Target)
    → DistinctAddrs ts
    → is_seen u.addr ts ≡ false
    → DistinctAddrs (ts ++ u ∷ [])
DistinctAddrs-snoc [] u d h = (refl, tt)
DistinctAddrs-snoc (t ∷ ts) u d h =
    let other : addr_eq t.addr u.addr ≡ false = ground arith in
    let others : is_seen u.addr ts ≡ false = ground arith in
    (any_snoc (λ v. addr_eq t.addr v.addr) ts u d.0 other, DistinctAddrs-snoc ts u d.1 others)

add_targets-DistinctAddrs :
    (ts us : List Target) → DistinctAddrs ts → DistinctAddrs (add_targets ts us)
unfolding add_targets add_target
add_targets-DistinctAddrs ts [] d = d
add_targets-DistinctAddrs ts (u ∷ us) d = elim (Bool-cases (is_seen u.addr ts)) [
  | inl seen ↦ rw seen (add_targets-DistinctAddrs ts us d)
  | inr fresh ↦
      rw fresh (add_targets-DistinctAddrs (ts ++ u ∷ []) us (DistinctAddrs-snoc ts u d fresh))
]

-- However configured and observed peers overlap, no address is a target twice.
pub targets-DistinctAddrs :
    (resolver : Resolver) (peers : List PeerMetadata) (x : Executor)
    → DistinctAddrs (targets resolver peers x)
unfolding targets
targets-DistinctAddrs resolver peers x =
    add_targets-DistinctAddrs _ _ (add_targets-DistinctAddrs [] _ tt)
