-- ===== src/Discovery/Verify.antt =====
-- What an accepted attestation proves, and that a node's own attestation is accepted.
use weverywhere.Prelude.{
  ℕ, ◌<◌, ◌^◌, ◌%◌, ◌≡◌, refl, subst, true, false, ==_iff, Bool, Option, some, none, arith, Bytes,
  Text, length, ◌==◌,
}
use weverywhere.Prelude.Utf8.{IsText}
use weverywhere.Foreign.Crypto.{Crypto}
use weverywhere.Foreign.Cbor.{Cbor, Value, Entries, integer, text, bytes, map, pos, get, IsPlain}
use weverywhere.Discovery.{
  VerifiedNode, Verdict, AttestError, does_not_verify, ok, require, ensure, text_of, bytes_of,
  epoch_of, map_of, check_node, check_map, verify_attestation_cbor, attestation_signing_bytes,
  attestation_value, build_attestation_cbor, key_hostname, key_pubkey, key_epoch_s, key_signature,
}

require-ok {ℓ} :
    {A : Type ℓ} (o : Option A) (e : AttestError) (k : A → Verdict) {n : VerifiedNode}
    → require o e k ≡ ok n
    → (a : A) × (o ≡ some a) × (k a ≡ ok n)
require-ok none e k h = cc
require-ok (some a) e k h = (a, refl, h)

ensure-ok :
    (t : Bool) (e : AttestError) (k : Verdict) {n : VerifiedNode}
    → ensure t e k ≡ ok n
    → (t ≡ true) × (k ≡ ok n)
ensure-ok true e k h = (refl, h)
ensure-ok false e k h = cc

text_of-some : (o : Option Value) {s : Text} → text_of o ≡ some s → o ≡ some (text s)
text_of-some o h = ground arith

bytes_of-some : (o : Option Value) {b : Bytes} → bytes_of o ≡ some b → o ≡ some (bytes b)
bytes_of-some o h = ground arith

map_of-map : (v : Value) {m : Entries} → map_of v ≡ some m → v ≡ map m
map_of-map v h = ground arith

epoch_of-some :
    (o : Option Value) {e : ℕ}
    → epoch_of o ≡ some e
    → (i : ℕ) × (o ≡ some (integer (pos i))) × (i % 2 ^ 64 ≡ e)
epoch_of-some o h = ground arith

-- What the entries of a map say of a node.
pub record Attests (crypto : Crypto) (m : Entries) (n : VerifiedNode) : Type 0 where
  pub signature : Bytes
  pub epoch : ℕ
  pub hostname_entry : get key_hostname m ≡ some (text n.hostname)
  pub pubkey_entry : get key_pubkey m ≡ some (bytes n.pubkey)
  pub epoch_entry : get key_epoch_s m ≡ some (integer (pos epoch))
  pub epoch_low : epoch % 2 ^ 64 ≡ n.epoch_s
  pub signature_entry : get key_signature m ≡ some (bytes signature)
  pub pubkey_length : length n.pubkey ≡ 32
  pub pubkey_ok : crypto.key_ok n.pubkey ≡ true
  pub signature_length : length signature ≡ 64
  pub verified :
      crypto.verify n.pubkey (attestation_signing_bytes n.hostname n.pubkey n.epoch_s) signature
      ≡ true

check_node-ok :
    (crypto : Crypto) (x n : VerifiedNode) (sig : Bytes)
    → check_node crypto x sig ≡ ok n
    → (x ≡ n)
      × (length x.pubkey ≡ 32)
      × (crypto.key_ok x.pubkey ≡ true)
      × (length sig ≡ 64)
      × (crypto.verify x.pubkey (attestation_signing_bytes x.hostname x.pubkey x.epoch_s) sig
          ≡ true)
unfolding check_node
check_node-ok crypto x n sig h =
    let (long, h1) = ensure-ok (length x.pubkey == 32) _ _ h in
    let (fine, h2) = ensure-ok (crypto.key_ok x.pubkey) _ _ h1 in
    let (size, h3) = ensure-ok (length sig == 64) _ _ h2 in
    let (verified, h4) =
      ensure-ok
        (crypto.verify x.pubkey (attestation_signing_bytes x.hostname x.pubkey x.epoch_s) sig)
        does_not_verify (ok x) h3 in
    (cc h4, (==_iff (length x.pubkey) 32).0 long, fine, (==_iff (length sig) 64).0 size, verified)

check_map-Attests :
    (crypto : Crypto) (m : Entries) (n : VerifiedNode)
    → check_map crypto m ≡ ok n
    → Attests crypto m n
unfolding check_map
check_map-Attests crypto m n h =
    let (hostname, e1, h1) = require-ok (text_of (get key_hostname m)) _ _ h in
    let (pubkey, e2, h2) = require-ok (bytes_of (get key_pubkey m)) _ _ h1 in
    let (epoch_s, e3, h3) = require-ok (epoch_of (get key_epoch_s m)) _ _ h2 in
    let (signature, e4, h4) = require-ok (bytes_of (get key_signature m)) _ _ h3 in
    let x : VerifiedNode = record { hostname = hostname; pubkey = pubkey; epoch_s = epoch_s } in
    let (same, long, fine, size, verified) = check_node-ok crypto x n signature h4 in
    let (epoch, e5, low) = epoch_of-some (get key_epoch_s m) e3 in
    let attests : Attests crypto m x = record {
      signature = signature;
      epoch = epoch;
      hostname_entry = text_of-some (get key_hostname m) e1;
      pubkey_entry = bytes_of-some (get key_pubkey m) e2;
      epoch_entry = e5;
      epoch_low = low;
      signature_entry = bytes_of-some (get key_signature m) e4;
      pubkey_length = long;
      pubkey_ok = fine;
      signature_length = size;
      verified = verified;
    } in
    subst (Attests crypto m) same attests

-- An accepted attestation is a CBOR map that names the node's hostname, public key and time, and
-- whose signature verifies under that very key over exactly these three.
pub verify_attestation_cbor_sound :
    (crypto : Crypto) (cbor : Cbor) (b : Bytes) (n : VerifiedNode)
    → verify_attestation_cbor crypto cbor b ≡ ok n
    → (m : Entries) × (cbor.from_slice b ≡ some (map m)) × Attests crypto m n
unfolding verify_attestation_cbor
verify_attestation_cbor_sound crypto cbor b n h =
    let (v, e1, h1) = require-ok (cbor.from_slice b) _ _ h in
    let (m, e2, h2) = require-ok (map_of v) _ _ h1 in
    (m, cc (map_of-map v e2), check_map-Attests crypto m n h2)

check_node-accepts :
    (crypto : Crypto) (x : VerifiedNode) (sig : Bytes)
    → length x.pubkey ≡ 32
    → crypto.key_ok x.pubkey ≡ true
    → length sig ≡ 64
    → crypto.verify x.pubkey (attestation_signing_bytes x.hostname x.pubkey x.epoch_s) sig ≡ true
    → check_node crypto x sig ≡ ok x
unfolding check_node
check_node-accepts crypto x sig long fine size verified =
    rw ((==_iff (length x.pubkey) 32).1 long, fine, (==_iff (length sig) 64).1 size, verified)

-- A node's own attestation is accepted: built and signed with the node's key over its hostname, its
-- public key and a u64 time, it decodes and verifies to exactly these.
pub verify-build :
    (crypto : Crypto) (cbor : Cbor) (sk : Bytes) (hostname : Text) (epoch_s : ℕ)
    → IsText hostname
    → epoch_s < 2 ^ 64
    → let pk = crypto.public_of sk in
      let msg = attestation_signing_bytes hostname pk epoch_s in
      (b : Bytes) × (build_attestation_cbor cbor hostname pk epoch_s (crypto.sign sk msg) ≡ some b)
      × (verify_attestation_cbor crypto cbor b
          ≡ ok (record { hostname = hostname; pubkey = pk; epoch_s = epoch_s }))
unfolding build_attestation_cbor verify_attestation_cbor attestation_value check_map get
verify-build crypto cbor sk hostname epoch_s ht hs =
    let pk = crypto.public_of sk in
    let sig = crypto.sign sk (attestation_signing_bytes hostname pk epoch_s) in
    let v = attestation_value hostname pk epoch_s sig in
    let plain : IsPlain v = (
      omega arith,
      omega arith,
      ht,
      (
        omega arith,
        omega arith,
        tt,
        (omega arith, omega arith, hs, (omega arith, omega arith, tt, tt)),
      ),
    ) in
    let (b, encoded, decoded) = cbor.round_trip v plain in
    let low : epoch_s % 2 ^ 64 ≡ epoch_s = omega arith in
    (
      b,
      encoded,
      rw (decoded, low)
          (check_node-accepts crypto
            (record { hostname = hostname; pubkey = pk; epoch_s = epoch_s }) sig
            (crypto.public-length sk) (crypto.public-key_ok sk) (crypto.sign-length sk _)
            (crypto.verify-sign sk _)),
    )
