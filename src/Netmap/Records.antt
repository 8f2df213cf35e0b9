-- ===== src/Netmap/Records.antt =====
-- The nodes of the map are proven by their records.
use weverywhere.Prelude.{ℕ, ◌≡◌, List, some, Bytes, In}
use weverywhere.Prelude.Ip.{SocketAddr}
use weverywhere.Foreign.Crypto.{Crypto}
use weverywhere.Foreign.Cbor.{Cbor}
use weverywhere.Discovery.{ok, verify_attestation_cbor, attestation_time_ok}
use weverywhere.Netmap.{Node, Record, parse_record}

-- A reply proves the node: it is a record whose attestation verifies to the node's hostname and key,
-- and to a time that the node's `time_ok` is about; and the node has its sender and its parent.
pub IsProven : Crypto → Cbor → ℕ → List (SocketAddr × Bytes) → Node → Type 0
IsProven crypto cbor now replies n =
    (b : Bytes) × (r : Record) × (epoch_s : ℕ) × In (n.responder, b) replies
    × (parse_record cbor b ≡ some r)
    × (verify_attestation_cbor crypto cbor r.attestation
        ≡ ok (record { hostname = n.hostname; pubkey = n.pubkey; epoch_s = epoch_s }))
    × (n.parent ≡ r.parent)
    × (n.time_ok ≡ attestation_time_ok epoch_s now)

module _ (crypto : Crypto) (cbor : Cbor) (now : ℕ) (replies : List (SocketAddr × Bytes)) where
  abbrev Proven : Node → Type 0
  Proven = IsProven crypto cbor now replies
