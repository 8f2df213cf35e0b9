-- ===== src/Discovery/Tests.antt =====
-- Tests of discovery, and its theorems at concrete inputs.
use weverywhere.Prelude.{ℕ, ◌≡◌, refl, true, false, [], ◌∷◌, arith, some, Bytes, bytes_eq}
use weverywhere.Prelude.Utf8.{utf8, utf8_char, codes}
use weverywhere.Foreign.Cbor.{Entries, map, get}
use weverywhere.Foreign.CborToy.{toy_cbor, toy_to_vec, toy_from_slice}
use weverywhere.Foreign.Toy.{toy_crypto, toy_sign, toy_verify}
use weverywhere.Discovery.{
  VerifiedNode, ok, initial_depth_budget, child_depth_budget, trust_cap, attestation_time_ok,
  attestation_signing_bytes, attestation_value, build_attestation_cbor, verify_attestation_cbor,
  check_node, check_map,
}
use weverywhere.Discovery.Budget.{budget_along}
use weverywhere.Discovery.Attestation.{attestation_signing_bytes-injective}
use weverywhere.Discovery.Verify.{Attests, verify_attestation_cbor_sound, verify-build}

program : Unit {0}
unfolding trust_cap initial_depth_budget child_depth_budget attestation_time_ok
    attestation_signing_bytes attestation_value build_attestation_cbor verify_attestation_cbor
    check_node check_map get utf8 utf8_char toy_to_vec toy_from_slice toy_sign toy_verify bytes_eq
    budget_along
program = tt

-- tests/discovery.rs: a trusted host that forwards to an untrusted peer grants it two hops.
collapse : child_depth_budget (initial_depth_budget true) false ≡ 2
unfolding program
collapse = refl

abbrev secret : Bytes
secret = 7 ∷ []

abbrev pk : Bytes
pk = toy_crypto.public_of secret

abbrev node1 : VerifiedNode
node1 = record { hostname = codes "n1"; pubkey = pk; epoch_s = 1760000000 }

abbrev attestation : Bytes
attestation =
    elim (build_attestation_cbor toy_cbor node1.hostname pk node1.epoch_s
      (toy_crypto.sign secret (attestation_signing_bytes node1.hostname pk node1.epoch_s))) [
        | some b ↦ b
        | _ ↦ []
      ]

attestation_verifies : verify_attestation_cbor toy_crypto toy_cbor attestation ≡ ok node1
unfolding program
attestation_verifies = refl

verify_attestation_cbor_sound_example :
    (m : Entries) × (toy_cbor.from_slice attestation ≡ some (map m)) × Attests toy_crypto m node1
verify_attestation_cbor_sound_example =
    verify_attestation_cbor_sound toy_crypto toy_cbor attestation node1 attestation_verifies

verify-build_example :
    (b : Bytes) × (build_attestation_cbor toy_cbor
        (codes "n1")
        pk
        1760000000
        (toy_crypto.sign secret (attestation_signing_bytes (codes "n1") pk 1760000000))
      ≡ some b)
    × (verify_attestation_cbor toy_crypto toy_cbor b
        ≡ ok (record { hostname = codes "n1"; pubkey = pk; epoch_s = 1760000000 }))
verify-build_example =
    verify-build toy_crypto toy_cbor secret (codes "n1") 1760000000 (omega arith) (omega arith)

attestation_signing_bytes-injective_example :
    (codes "n1" ≡ codes "n1") × (pk ≡ pk) × (◌≡◌ {A = ℕ} 5 5)
attestation_signing_bytes-injective_example =
    attestation_signing_bytes-injective (codes "n1") (codes "n1") pk pk 5 5 (omega arith)
      (omega arith) (omega arith) (omega arith) refl refl
