-- ===== src/Netmap/Tests.antt =====
-- Tests of the network map, and its theorems at concrete nodes.
use weverywhere.Prelude.{
  ◌≡◌, refl, true, List, [], ◌∷◌, Option, none, some, Bytes, Distinct, length, bytes_eq,
}
use weverywhere.Prelude.Utf8.{codes, utf8, utf8_char}
use weverywhere.Prelude.Ip.{SocketAddr, v4}
use weverywhere.Foreign.Toy.{toy_crypto, toy_sign, toy_verify}
use weverywhere.Foreign.CborToy.{toy_cbor, toy_to_vec, toy_from_slice}
use weverywhere.Foreign.Cbor.{integer, bytes, map, entry, end, pos, get}
use weverywhere.Discovery.{
  build_attestation_cbor, attestation_signing_bytes, attestation_value, verify_attestation_cbor,
  check_map, check_node, attestation_time_ok,
}
use weverywhere.Netmap.{Node, draw, assemble, parse_record, or_insert, find_node}
use weverywhere.Netmap.Tree.{keys, draw-Distinct}
use weverywhere.Netmap.Fuel.{draw_at, draw-enough}

abbrev pub node : Bytes → Bytes → Node
node pubkey parent = record {
  pubkey = pubkey;
  hostname = pubkey;
  parent = parent;
  trusts_caller = true;
  node_addr = none;
  responder = record { ip = v4 1; port = 2 };
  sig_valid = true;
  time_ok = true;
}

-- Two nodes that each were reached through the other first.
abbrev loop : List Node
loop = node (1 ∷ []) (2 ∷ []) ∷ node (2 ∷ []) (1 ∷ []) ∷ []

abbrev chain : List Node
chain = node (1 ∷ []) (9 ∷ []) ∷ node (2 ∷ []) (1 ∷ []) ∷ []

draw-Distinct_example : Distinct (keys (draw chain (9 ∷ [])).rows)
draw-Distinct_example = draw-Distinct chain (9 ∷ [])

draw-enough_example : draw_at chain (9 ∷ []) 5 ≡ draw chain (9 ∷ [])
draw-enough_example = draw-enough chain (9 ∷ []) 2

-- The attestation of a node, and the reply that brings it, with the node's parent.
abbrev pk : Bytes
pk = toy_crypto.public_of (7 ∷ [])

abbrev or_nothing : Option Bytes → Bytes
or_nothing none = []
or_nothing (some b) = b

abbrev attestation : Bytes
attestation = or_nothing (
    build_attestation_cbor toy_cbor (codes "n1") pk 7
      (toy_crypto.sign (7 ∷ []) (attestation_signing_bytes (codes "n1") pk 7)))

abbrev replies : List (SocketAddr × Bytes)
replies =
    (
      record { ip = v4 1; port = 2 },
      or_nothing (
          toy_cbor.to_vec (
            map (
              entry (integer (pos 1)) (bytes attestation)
                (entry (integer (pos 4)) (bytes (9 ∷ [])) end)))),
    )
    ∷ []

-- The reply makes a node.
assembled : length (assemble toy_crypto toy_cbor 7 [] replies) ≡ 1
unfolding assemble parse_record get or_insert find_node toy_to_vec toy_from_slice
    verify_attestation_cbor check_map check_node attestation_signing_bytes attestation_value
    build_attestation_cbor attestation_time_ok toy_sign toy_verify utf8 utf8_char bytes_eq
assembled = refl
