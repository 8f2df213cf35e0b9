-- ===== src/Config/Tests.antt =====
-- Tests of the configuration, and its theorems at concrete peers, identities and files.
use weverywhere.Prelude.{
  ◌++◌, le_bytes, ◌≡◌, ◌≢◌, refl, ◌↔◌, [], ◌∷◌, ◌++◌, arith, none, some, trim,
}
use weverywhere.Prelude.Utf8.{utf8, codes}
use weverywhere.Foreign.Toy.{toy_crypto}
use weverywhere.Config.Peer.{PeerMetadataToml, PeerMetadata, ok, try_from, toml_basic_string}
use weverywhere.Config.TomlString.{is_control, read_basic_string, read-toml_basic_string}
use weverywhere.Config.Identity.{IdentityData, valid, generate, check_self_signature}
use weverywhere.Config.Signing.{Signed, check_self_signature_iff}
use weverywhere.Config.Shifting.{shifted, check_self_signature-shifted}
use weverywhere.Config.Merge.{
  Config, ConfigOpt, Files, read_from_file, apply_includes, apply_include, apply_entries,
  apply_entry, process_config_override_file, merge_override, fancy_omerge, into_optioned,
  try_from_optioned, identity_from, fancy_omerge_vec, all_present, present, limit_from,
}
use weverywhere.Config.MergeLaws.{Keeps, read_from_file-Keeps}

abbrev blank_peer : PeerMetadataToml
blank_peer = record { hostname = some (32 ∷ 9 ∷ []); ipv6 = none; ipv4 = none; expected_key = none }

abbrev padded_peer : PeerMetadataToml
padded_peer = record blank_peer { hostname = some (32 ∷ 97 ∷ 32 ∷ []); ipv4 = some 0x7f000001 }

abbrev loaded_peer : PeerMetadata
loaded_peer = record {
  hostname = some (97 ∷ []);
  ipv6 = none;
  ipv4 = some 0x7f000001;
  expected_key = none;
}

padded_peer-loads : try_from padded_peer ≡ ok loaded_peer
unfolding try_from trim
padded_peer-loads = refl

read-toml_basic_string_example :
    read_basic_string (toml_basic_string (97 ∷ 34 ∷ 10 ∷ []) ++ (32 ∷ []))
    ≡ some (97 ∷ 34 ∷ 10 ∷ [], 32 ∷ [])
unfolding is_control
read-toml_basic_string_example =
    read-toml_basic_string (97 ∷ 34 ∷ 10 ∷ []) (32 ∷ []) (refl, (refl, (refl, tt)))

-- An identity of time 5.
abbrev alice : IdentityData
alice = generate toy_crypto (1 ∷ 2 ∷ []) (97 ∷ []) 5

check_self_signature_iff_example :
    (check_self_signature toy_crypto alice ≡ valid)
    ↔ Signed toy_crypto alice.encoded_public_key
        (toy_crypto.sha256 (
          utf8 alice.human_name
          ++ (le_bytes 8 alice.generated_at_utc0_epoch_s
              ++ (le_bytes 2 alice.validity_s
                  ++ (utf8 alice.encoded_public_key_fmt ++ alice.encoded_public_key)))))
        alice.signature
check_self_signature_iff_example = check_self_signature_iff toy_crypto alice

check_self_signature-shifted_example :
    (check_self_signature toy_crypto (shifted alice 101 (codes "d25519"))
      ≡ check_self_signature toy_crypto alice)
    × ((shifted alice 101 (codes "d25519")).human_name ≢ alice.human_name)
unfolding generate
check_self_signature-shifted_example =
    check_self_signature-shifted toy_crypto alice 101 (codes "d25519") refl (omega arith)
      (omega arith) (omega arith) (omega arith)

-- One include, whose file adds a trusted key and names another include.
abbrev main_config : Config
main_config = record {
  identity = record { name = 97 ∷ []; keyfile = 107 ∷ [] };
  trusted = (1 ∷ []) ∷ [];
  startup_program = [];
  includes = (2 ∷ []) ∷ [];
  peer = loaded_peer ∷ [];
  limits = record {
    trusted = record { max_cpu_instructions = 1; max_memory_bytes = 2 };
    untrusted = record { max_cpu_instructions = 3; max_memory_bytes = 4 };
  };
}

abbrev override : ConfigOpt
override = record {
  identity = none;
  trusted = some (some (5 ∷ []) ∷ []);
  startup_program = none;
  includes = some (some (6 ∷ []) ∷ []);
  peer = none;
  limits = none;
}

abbrev one_override : Files
one_override = record {
  omerge_identity = λ a b. none;
  omerge_limit = λ a b. some (some b);
  read_override = λ path. some override;
  glob = λ path. some (some (7 ∷ []) ∷ none ∷ []);
}

loaded_keys : (read_from_file one_override main_config).trusted ≡ (1 ∷ []) ∷ (5 ∷ []) ∷ []
unfolding read_from_file apply_includes apply_include apply_entries apply_entry
    process_config_override_file merge_override fancy_omerge into_optioned try_from_optioned
    identity_from fancy_omerge_vec all_present present limit_from
loaded_keys = refl

read_from_file-Keeps_example : Keeps main_config (read_from_file one_override main_config)
read_from_file-Keeps_example = read_from_file-Keeps one_override main_config
