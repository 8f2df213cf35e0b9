-- ===== src/Netmap.antt =====
-- src/command/netmap.rs: the records that nodes return, and the tree of nodes that is printed.
pub mod Records
pub mod Tree
pub mod Fuel
pub mod Keys
pub mod Discover
mod Budgets
mod SurveyTests
mod Tests
use weverywhere.Prelude.{
  ℕ, zero, suc, ◌+◌, Bool, true, false, not, List, [], ◌∷◌, ◌++◌, Option, none, some, Bytes, Text,
  ltb, ◌==◌, ◌&&◌, ◌||◌, if◌then◌else◌, any, keep, member, bytes_eq, is_empty, length,
}
use weverywhere.Prelude.Utf8.{codes, from_utf8_lossy}
use weverywhere.Prelude.Ip.{SocketAddr, addr_text}
use weverywhere.Foreign.Crypto.{Crypto}
use weverywhere.Foreign.Cbor.{
  Cbor, Value, Entries, integer, text, bytes, array, map, other, get, pos, negsuc,
}
use weverywhere.Discovery.{
  VerifiedNode, Verdict, ok, err, verify_attestation_cbor, attestation_time_ok, map_of, bytes_of,
}
use weverywhere.Messages.{NetworkMessage, basic_return_map, Bare}
use weverywhere.Executor.State.{short_id}

-- `Node`, without its own key, which is the key it is kept under.
pub record Node : Type 0 where
  pub pubkey : Bytes
  pub hostname : Text
  pub parent : Bytes
  pub trusts_caller : Bool
  pub node_addr : Option Text
  pub responder : SocketAddr
  pub sig_valid : Bool
  pub time_ok : Bool

pub record Record : Type 0 where
  pub attestation : Bytes
  pub parent : Bytes
  pub trusts_caller : Bool
  pub node_addr : Option Text

abbrev pub or_empty : Option Bytes → Bytes
or_empty none = []
or_empty (some b) = b

abbrev pub is_one : Option Value → Bool
is_one (some (integer (pos n))) = n == 1
is_one _ = false

abbrev pub unless_empty : Text → Option Text
unless_empty s = if is_empty s then none else some s

abbrev pub addr_of : Option Value → Option Text
addr_of (some (text s)) = unless_empty s
addr_of (some (bytes b)) = if is_empty b then none else some (from_utf8_lossy b)
addr_of _ = none

abbrev pub record_of : Entries → Option Bytes → Option Record
record_of m none = none
record_of m (some attestation) = some (record {
  attestation = attestation;
  parent = or_empty (bytes_of (get 4 m));
  trusts_caller = is_one (get 2 m);
  node_addr = addr_of (get 5 m);
})

abbrev pub record_in : Option Value → Option Record
record_in (some (map m)) = record_of m (bytes_of (get 1 m))
record_in _ = none

unfoldable pub parse_record : Cbor → Bytes → Option Record
parse_record cbor b = record_in (cbor.from_slice b)

-- One reply that a collector reads: it is kept if it is a map for this request.
abbrev pub kept_reply : Bytes → Option NetworkMessage → Option Bytes
kept_reply request_uuid (some (basic_return_map pid uuid cbor)) =
    if bytes_eq uuid request_uuid then some cbor else none
kept_reply request_uuid _ = none

unfoldable pub collect : Bare → Bytes → List (SocketAddr × Bytes) → List (SocketAddr × Bytes)
collect bare request_uuid [] = []
collect bare request_uuid ((from, b) ∷ rest) =
    let later = collect bare request_uuid rest in
    elim (kept_reply request_uuid (bare.from_slice b)) [
      | none ↦ later
      | some cbor ↦ (from, cbor) ∷ later
    ]

abbrev pub node_of : SocketAddr → ℕ → Record → VerifiedNode → Node
node_of responder now r vn = record {
  pubkey = vn.pubkey;
  hostname = vn.hostname;
  parent = r.parent;
  trusts_caller = r.trusts_caller;
  node_addr = r.node_addr;
  responder = responder;
  sig_valid = true;
  time_ok = attestation_time_ok vn.epoch_s now;
}

unfoldable pub find_node : Bytes → List Node → Option Node
find_node pk [] = none
find_node pk (n ∷ ns) = let rest = find_node pk ns in if bytes_eq n.pubkey pk then some n else rest

abbrev pub has_node : Bytes → List Node → Bool
has_node pk ns = any (λ n. bytes_eq n.pubkey pk) ns

-- `nodes.entry(pubkey).or_insert(node)`: the first record of a key stays.
unfoldable pub or_insert : List Node → Node → List Node
or_insert ns n = if has_node n.pubkey ns then ns else ns ++ n ∷ []

abbrev pub with_verdict : List Node → SocketAddr → ℕ → Record → Verdict → List Node
with_verdict ns responder now r (ok vn) = or_insert ns (node_of responder now r vn)
with_verdict ns responder now r (err e) = ns

abbrev pub with_record : Crypto → Cbor → List Node → SocketAddr → ℕ → Option Record → List Node
with_record crypto cbor ns responder now none = ns
with_record crypto cbor ns responder now (some r) =
    with_verdict ns responder now r (verify_attestation_cbor crypto cbor r.attestation)

-- The first loop of `print_network_map`.
unfoldable pub assemble : Crypto → Cbor → ℕ → List Node → List (SocketAddr × Bytes) → List Node
assemble crypto cbor now ns [] = ns
assemble crypto cbor now ns ((responder, b) ∷ rest) =
    assemble crypto cbor now (with_record crypto cbor ns responder now (parse_record cbor b)) rest

-- `sort_by` of the hostnames, which keeps the order of equals.
unfoldable pub text_le : Text → Text → Bool
text_le [] t = true
text_le (x ∷ s) [] = false
text_le (x ∷ s) (y ∷ t) = let rest = text_le s t in if x == y then rest else ltb x y

unfoldable pub insert_sorted : Node → List Node → List Node
insert_sorted n [] = n ∷ []
insert_sorted n (m ∷ ms) =
    let rest = insert_sorted n ms in if text_le n.hostname m.hostname then n ∷ m ∷ ms else m ∷ rest

unfoldable pub sort_nodes : List Node → List Node
sort_nodes [] = []
sort_nodes (n ∷ ns) = insert_sorted n (sort_nodes ns)

unfoldable pub children_of : List Node → Bytes → List Node
children_of nodes pk = sort_nodes (keep (λ n. bytes_eq n.parent pk) nodes)

unfoldable pub roots : List Node → Bytes → List Node
roots nodes our_pubkey =
    sort_nodes (keep (λ n. bytes_eq n.parent our_pubkey || not (has_node n.parent nodes)) nodes)

pub record Row : Type 0 where
  pub tree : Text
  pub trust_mark : Text
  pub warn : Text

abbrev pub addr_or : Option Text → SocketAddr → Text
addr_or none responder = addr_text responder
addr_or (some a) responder = a

unfoldable pub row : Node → Text → Bool → Row
row n prefix is_last = record {
  tree =
      prefix
      ++ (codes (if is_last then "`--" else "|--")
          ++ (32
              ∷ (n.hostname
                  ++ (codes " ("
                      ++ (short_id n.pubkey
                          ++ (codes ") @ " ++ addr_or n.node_addr n.responder))))));
  trust_mark = codes (if n.trusts_caller then "<3" else "x");
  warn = codes (if n.sig_valid && n.time_ok then "" else " (!)");
}

abbrev pub child_prefix : Text → Bool → Text
child_prefix prefix is_last = prefix ++ codes (if is_last then "    " else "|   ")

-- The keys that are printed so far, a set, and the rows with the keys they are of.
pub record Drawing : Type 0 where
  pub printed : List Bytes
  pub rows : List (Bytes × Row)

-- A loop over nodes, with whether each is the last.
unfoldable pub each : (Bytes → Bool → Drawing → Drawing) → List Node → Drawing → Drawing
each f [] d = d
each f (c ∷ cs) d = each f cs (f c.pubkey (is_empty cs) d)

unfoldable pub with_row : Drawing → Node → Bytes → Text → Bool → Drawing
with_row d n pk prefix is_last = record {
  printed = d.printed ++ pk ∷ [];
  rows = d.rows ++ (pk, row n prefix is_last) ∷ [];
}

-- `collect_rows`, with fuel for its depth.
unfoldable pub collect_rows : ℕ → List Node → Bytes → Text → Bool → Drawing → Drawing
collect_rows zero nodes pk prefix is_last d = d
collect_rows (suc fuel) nodes pk prefix is_last d = elim (find_node pk nodes) [
  | none ↦ d
  | some n ↦ elim (member pk d.printed) [
    | true ↦ d
    | false ↦
        let d' = with_row d n pk prefix is_last in
        each (λ child last. collect_rows fuel nodes child (child_prefix prefix is_last) last)
          (keep (λ c. not (member c.pubkey d'.printed)) (children_of nodes pk)) d'
  ]
]

-- The tree of the whole map.
unfoldable pub draw : List Node → Bytes → Drawing
draw nodes our_pubkey =
    each (λ pk last. collect_rows (suc (length nodes)) nodes pk [] last) (roots nodes our_pubkey)
      (record { printed = []; rows = [] })
