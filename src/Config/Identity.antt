-- ===== src/Config/Identity.antt =====
-- `IdentityData` of src/config.rs: an identity signed with its own key, and payloads signed with it.
use weverywhere.Prelude.{ℕ, Bool, true, false, ◌++◌, Bytes, Text, ◌==◌, length, le_bytes}
use weverywhere.Prelude.Utf8.{codes, utf8}
use weverywhere.Foreign.Crypto.{Crypto}

pub record IdentityData : Type 0 where
  pub human_name : Text
  pub generated_at_utc0_epoch_s : ℕ
  pub validity_s : ℕ
  pub encoded_public_key_fmt : Text
  pub encoded_public_key : Bytes
  pub signature : Bytes

-- The outcome of a signature check: `Ok(())`, or which step failed.
pub data Checked : Type 0 where
  valid : Checked
  key_not_32_bytes bad_key bad_signature mismatch : Checked

-- The bytes fed to the hasher, in order.
unfoldable pub identity_bytes : Text → ℕ → ℕ → Text → Bytes → Bytes
identity_bytes human_name epoch_s validity_s fmt key =
    utf8 human_name ++ (le_bytes 8 epoch_s ++ (le_bytes 2 validity_s ++ (utf8 fmt ++ key)))

module _ (crypto : Crypto) where
  unfoldable pub sign_identity_data : Bytes → Text → ℕ → ℕ → Text → Bytes → Bytes
  sign_identity_data signing_key human_name epoch_s validity_s fmt key =
      crypto.sign signing_key (crypto.sha256 (identity_bytes human_name epoch_s validity_s fmt key))

  -- The checks that `check_self_signature` and `verify_payload` share, over a hash: the key's length
  -- and validity, the signature's length, and the signature itself.
  unfoldable pub check_hash : Bytes → Bytes → Bytes → Checked
  check_hash key hash signature = elim (length key == 32) [
    | false ↦ key_not_32_bytes
    | true ↦ elim (crypto.key_ok key) [
      | false ↦ bad_key
      | true ↦ elim (length signature == 64) [
        | false ↦ bad_signature
        | true ↦ elim (crypto.verify key hash signature) [ false ↦ mismatch | true ↦ valid ]
      ]
    ]
  ]

  unfoldable pub check_self_signature : IdentityData → Checked
  check_self_signature d =
      check_hash d.encoded_public_key
        (crypto.sha256 (
          identity_bytes d.human_name d.generated_at_utc0_epoch_s d.validity_s
            d.encoded_public_key_fmt d.encoded_public_key))
        d.signature

  abbrev pub is_valid : Checked → Bool
  is_valid valid = true
  is_valid _ = false

  unfoldable pub check_self_signature_b : IdentityData → Bool
  check_self_signature_b d = is_valid (check_self_signature d)

  -- `generate_from_config`, behind the reading of the key file and the clock.
  unfoldable pub generate : Bytes → Text → ℕ → IdentityData
  unfolding sign_identity_data
  generate signing_key human_name now =
      let fmt = codes "ed25519" in
      let key = crypto.public_of signing_key in
      record {
        human_name = human_name;
        generated_at_utc0_epoch_s = now;
        validity_s = 0xffff;
        encoded_public_key_fmt = fmt;
        encoded_public_key = key;
        signature = sign_identity_data signing_key human_name now 0xffff fmt key;
      }

  unfoldable pub sign_payload : Bytes → Bytes → Bytes → Bytes
  sign_payload signing_key id payload = crypto.sign signing_key (crypto.sha256 (id ++ payload))

  unfoldable pub verify_payload : IdentityData → Bytes → Bytes → Bytes → Checked
  verify_payload d id payload signature =
      check_hash d.encoded_public_key (crypto.sha256 (id ++ payload)) signature
