-- ===== src/Foreign/Crypto.antt =====
-- ed25519-dalek and sha2, as the program uses them. A signing key stands for its secret bytes.
use weverywhere.Prelude.{◌≡◌, Bool, true, Bytes, length}

pub record Crypto : Type 0 where
  -- `Sha256::new()`, `update` for each part of the argument in order, `finalize`
  pub sha256 : Bytes → Bytes
  -- `signing_key.verifying_key().as_bytes()`
  pub public_of : Bytes → Bytes
  -- `signing_key.sign(message).to_bytes()`
  pub sign : Bytes → Bytes → Bytes
  -- `VerifyingKey::from_bytes` accepts these 32 bytes
  pub key_ok : Bytes → Bool
  -- `verifying_key.verify(message, signature)`, for a key that `from_bytes` accepted
  pub verify : Bytes → Bytes → Bytes → Bool
  pub public-length : (sk : Bytes) → length (public_of sk) ≡ 32
  pub public-key_ok : (sk : Bytes) → key_ok (public_of sk) ≡ true
  pub sign-length : (sk msg : Bytes) → length (sign sk msg) ≡ 64
  -- A signature made with a key verifies under that key.
  pub verify-sign : (sk msg : Bytes) → verify (public_of sk) msg (sign sk msg) ≡ true
