-- ===== src/Discovery.antt =====
-- src/discovery.rs: the depth budget of recursive discovery and the signed node attestation.
pub mod Budget
pub mod Attestation
pub mod Verify
mod Tests
use weverywhere.Prelude.{
  ℕ, ◌-◌, ◌%◌, ◌^◌, Bool, true, false, ◌++◌, List, [], ◌∷◌, Option, none, some, Bytes, Text, ltb,
  leb, ◌==◌, if◌then◌else◌, length, le_bytes, min,
}
use weverywhere.Prelude.Utf8.{codes, utf8}
use weverywhere.Foreign.Crypto.{Crypto}
use weverywhere.Foreign.Cbor.{
  Cbor, Value, Entries, integer, text, bytes, array, map, other, entry, end, pos, negsuc, get,
}

abbrev pub trusted_forward_depth : ℕ
trusted_forward_depth = 8

abbrev pub untrusted_forward_depth : ℕ
untrusted_forward_depth = 2

unfoldable pub trust_cap : Bool → ℕ
trust_cap trusted = if trusted then trusted_forward_depth else untrusted_forward_depth

unfoldable pub initial_depth_budget : Bool → ℕ
unfolding trust_cap
initial_depth_budget origin_trusts_peer = trust_cap origin_trusts_peer

unfoldable pub child_depth_budget : ℕ → Bool → ℕ
unfolding trust_cap
child_depth_budget parent_remaining forwarder_trusts_peer =
    if parent_remaining == 0
    then 0
    else min (parent_remaining - 1) (trust_cap forwarder_trusts_peer)

-- The integer keys of an attestation map (`attest_keys`).
abbrev pub key_hostname : ℕ
key_hostname = 1

abbrev pub key_pubkey : ℕ
key_pubkey = 2

abbrev pub key_epoch_s : ℕ
key_epoch_s = 3

abbrev pub key_signature : ℕ
key_signature = 4

abbrev pub attestation_window_half_s : ℕ
attestation_window_half_s = 30

-- The bytes of `b"weverywhere-node-attest-v1\n"`.
abbrev pub attestation_prefix : Bytes
attestation_prefix = codes "weverywhere-node-attest-v1" ++ 10 ∷ []

unfoldable pub attestation_signing_bytes : Text → Bytes → ℕ → Bytes
attestation_signing_bytes hostname pubkey epoch_s =
    attestation_prefix ++ (utf8 hostname ++ (10 ∷ (pubkey ++ (10 ∷ le_bytes 8 epoch_s))))

unfoldable pub attestation_value : Text → Bytes → ℕ → Bytes → Value
attestation_value hostname pubkey epoch_s signature = map (
    entry (integer (pos key_hostname)) (text hostname) (
      entry (integer (pos key_pubkey)) (bytes pubkey) (
        entry (integer (pos key_epoch_s)) (integer (pos epoch_s))
          (entry (integer (pos key_signature)) (bytes signature) end))))

unfoldable pub build_attestation_cbor : Cbor → Text → Bytes → ℕ → Bytes → Option Bytes
unfolding attestation_value
build_attestation_cbor cbor hostname pubkey epoch_s signature =
    cbor.to_vec (attestation_value hostname pubkey epoch_s signature)

pub record VerifiedNode : Type 0 where
  pub hostname : Text
  pub pubkey : Bytes
  pub epoch_s : ℕ

unfoldable pub attestation_time_ok : ℕ → ℕ → Bool
attestation_time_ok epoch_s now_epoch_s =
    let diff = if ltb now_epoch_s epoch_s then epoch_s - now_epoch_s else now_epoch_s - epoch_s in
    leb diff attestation_window_half_s

-- The reasons of `verify_attestation_cbor`.
pub data AttestError : Type 0 where
  cbor_decode not_a_map missing_hostname missing_pubkey invalid_epoch missing_signature :
      AttestError
  pubkey_not_32_bytes bad_pubkey bad_signature does_not_verify : AttestError

pub data Verdict : Type 0 where
  ok : VerifiedNode → Verdict
  err : AttestError → Verdict

-- The fields of the map: each is looked up and matched on its variant.
abbrev pub text_of : Option Value → Option Text
text_of (some (text s)) = some s
text_of _ = none

abbrev pub bytes_of : Option Value → Option Bytes
bytes_of (some (bytes b)) = some b
bytes_of _ = none

-- `*i as u64` keeps the low 64 bits of an i128 that is not negative.
abbrev pub epoch_of : Option Value → Option ℕ
epoch_of (some (integer (pos n))) = some (n % 2 ^ 64)
epoch_of _ = none

abbrev pub map_of : Value → Option Entries
map_of (map m) = some m
map_of _ = none

-- `let x = match o { Some(x) => x, _ => return Err(e) }`.
abbrev pub require {ℓ} : {A : Type ℓ} → Option A → AttestError → (A → Verdict) → Verdict
require none e k = err e
require (some a) e k = k a

abbrev pub ensure : Bool → AttestError → Verdict → Verdict
ensure true e k = k
ensure false e k = err e

-- The signature check of the last part.
unfoldable pub check_node : Crypto → VerifiedNode → Bytes → Verdict
check_node crypto n signature = ensure (length n.pubkey == 32) pubkey_not_32_bytes (
    ensure (crypto.key_ok n.pubkey) bad_pubkey (
      ensure (length signature == 64) bad_signature (
        ensure
          (crypto.verify n.pubkey (attestation_signing_bytes n.hostname n.pubkey n.epoch_s)
            signature)
          does_not_verify (ok n))))

unfoldable pub check_map : Crypto → Entries → Verdict
check_map crypto m = require (text_of (get key_hostname m)) missing_hostname λ hostname.
    require (bytes_of (get key_pubkey m)) missing_pubkey λ pubkey.
      require (epoch_of (get key_epoch_s m)) invalid_epoch λ epoch_s.
        require (bytes_of (get key_signature m)) missing_signature λ signature.
          check_node crypto (record { hostname = hostname; pubkey = pubkey; epoch_s = epoch_s })
            signature

unfoldable pub verify_attestation_cbor : Crypto → Cbor → Bytes → Verdict
verify_attestation_cbor crypto cbor b =
    require (cbor.from_slice b) cbor_decode
      λ val. require (map_of val) not_a_map λ m. check_map crypto m
