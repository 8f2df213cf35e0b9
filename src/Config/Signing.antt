-- ===== src/Config/Signing.antt =====
-- What a node signs is accepted, and what is accepted was signed for.
use weverywhere.Prelude.{ℕ, ◌≡◌, ◌↔◌, true, arith, Bytes, Text, length, ◌++◌, le_bytes}
use weverywhere.Prelude.Utf8.{utf8}
use weverywhere.Foreign.Crypto.{Crypto}
use weverywhere.Config.Identity.{
  IdentityData, valid, identity_bytes, check_hash, check_self_signature, generate, sign_payload,
  verify_payload,
}

module _ (crypto : Crypto) where
  abbrev pub Signed : Bytes → Bytes → Bytes → Type 0
  Signed key hash signature =
      (length key ≡ 32)
      × (crypto.key_ok key ≡ true)
      × (length signature ≡ 64)
      × (crypto.verify key hash signature ≡ true)

  check_hash_iff :
      (key hash signature : Bytes)
      → (check_hash crypto key hash signature ≡ valid) ↔ Signed key hash signature
  unfolding check_hash
  check_hash_iff key hash signature = ground arith

  -- An identity is accepted exactly if its key is a 32-byte ed25519 key, its signature has 64 bytes,
  -- and the signature verifies under that key over the hash of its fields one after another: the name in UTF-8, the time in 8 bytes and the validity in
  -- 2, both little-endian, the format hint in UTF-8, and the key.
  pub check_self_signature_iff :
      (d : IdentityData)
      → (check_self_signature crypto d ≡ valid)
        ↔ Signed d.encoded_public_key
            (crypto.sha256 (
              utf8 d.human_name
              ++ (le_bytes 8 d.generated_at_utc0_epoch_s
                  ++ (le_bytes 2 d.validity_s
                      ++ (utf8 d.encoded_public_key_fmt ++ d.encoded_public_key)))))
            d.signature
  unfolding check_self_signature identity_bytes
  check_self_signature_iff d = check_hash_iff d.encoded_public_key _ d.signature

  -- A freshly generated identity is accepted, and a payload signed with its key verifies against it,
  -- under any id.
  pub generate-accepted :
      (sk : Bytes) (name : Text) (now : ℕ) (id payload : Bytes)
      → (check_self_signature crypto (generate crypto sk name now) ≡ valid)
        × (verify_payload crypto
              (generate crypto sk name now)
              id
              payload
              (sign_payload crypto sk id payload)
            ≡ valid)
  unfolding check_self_signature generate verify_payload sign_payload
  generate-accepted sk name now id payload =
      ((check_hash_iff _ _ _).1 (good _), (check_hash_iff _ _ _).1 (good _))
    where
      good : (hash : Bytes) → Signed (crypto.public_of sk) hash (crypto.sign sk hash)
      good hash = (
        crypto.public-length sk,
        crypto.public-key_ok sk,
        crypto.sign-length sk hash,
        crypto.verify-sign sk hash,
      )

  pub sign_payload-verifies :
      (sk : Bytes) (d : IdentityData) (id payload : Bytes)
      → d.encoded_public_key ≡ crypto.public_of sk
      → verify_payload crypto d id payload (sign_payload crypto sk id payload) ≡ valid
  unfolding verify_payload sign_payload
  sign_payload-verifies sk d id payload same = rw same (
      (check_hash_iff _ _ _).1 (
        crypto.public-length sk,
        crypto.public-key_ok sk,
        crypto.sign-length sk _,
        crypto.verify-sign sk _,
      ))
