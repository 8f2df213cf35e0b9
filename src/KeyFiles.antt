-- ===== src/KeyFiles.antt =====
-- The keys of src/crypto_utils.rs: the private key's PEM file, and the public key's OpenSSH text.
mod Laws
mod Tests
use weverywhere.Prelude.{
  ℕ, ◌+◌, ◌/◌, ◌%◌, ◌^◌, ◌≡◌, ◌≢◌, Bool, List, [], ◌∷◌, ◌++◌, Option, none, some, Bytes, Text, All,
  length, trim, bytes_eq, is_whitespace, false, ◌==◌, if◌then◌else◌,
}
use weverywhere.Prelude.Utf8.{codes}

-- What `PublicKey::from_openssh` reads: an Ed25519 key, or one of another kind.
pub data PublicKey : Type 0 where
  ed25519 : Bytes → PublicKey
  other_kind : PublicKey

-- A string of the SSH wire format: its length in four bytes, the highest first, and its bytes.
abbrev pub be32 : ℕ → Bytes
be32 n = (n / 2 ^ 24 % 256) ∷ (n / 2 ^ 16 % 256) ∷ (n / 2 ^ 8 % 256) ∷ (n % 256) ∷ []

abbrev pub wire_string : Bytes → Bytes
wire_string b = be32 (length b) ++ b

abbrev pub key_type : Bytes
key_type = codes "ssh-ed25519"

-- A character that is not white space.
abbrev pub IsInk : ℕ → Type 0
IsInk c = is_whitespace c ≡ false

-- The crates of pem, pkcs8, der, base64, ssh-key and ed25519-dalek. A PEM file is its tag and contents.
pub record KeyCrates : Type 0 where
  pub pem_parse : Text → Option (Text × Bytes)
  pub private_key_info : Bytes → Option Bytes
  pub octet_string : Bytes → Option Bytes
  pub verifying_key : Bytes → Bytes
  pub base64 : Bytes → Text
  pub from_openssh : Text → Option PublicKey
  pub key_ok : Bytes → Bool
  pub base64-ink : (b : Bytes) → All IsInk (base64 b)
  pub base64-some : (b : Bytes) → b ≢ [] → base64 b ≢ []
  pub from_openssh-text :
      (pk : Bytes)
      → length pk ≡ 32
      → from_openssh (key_type ++ (32 ∷ base64 (wire_string key_type ++ wire_string pk)))
        ≡ some (ed25519 pk)

abbrev pub and_then {ℓ κ} : {A : Type ℓ} {B : Type κ} → Option A → (A → Option B) → Option B
and_then none k = none
and_then (some a) k = k a

abbrev pub checked : Bool → Bytes → Option Bytes
checked ok b = if ok then some b else none

module _ (crates : KeyCrates) where
  abbrev pub in_pem : Text × Bytes → Option Bytes
  in_pem (tag, contents) = and_then (checked (bytes_eq tag (codes "PRIVATE KEY")) contents) λ der.
      and_then (crates.private_key_info der) λ private_key.
        and_then (crates.octet_string private_key) λ key. checked (length key == 32) key

  -- `read_private_key_ed25519_pem_file`: the 32 bytes of the signing key. `contents` is `none` if the
  -- file cannot be read.
  unfoldable pub read_private_key : Option Text → Option Bytes
  read_private_key contents = and_then contents λ text. and_then (crates.pem_parse text) in_pem

  -- `read_public_key_ed25519_pem_file` repeats these steps and derives the public key.
  unfoldable pub read_public_key : Option Text → Option Bytes
  read_public_key contents = and_then contents λ text. and_then (crates.pem_parse text) λ pem.
      and_then (checked (bytes_eq pem.0 (codes "PRIVATE KEY")) pem.1) λ der.
        and_then (crates.private_key_info der) λ private_key.
          and_then (crates.octet_string private_key) λ key.
            and_then (checked (length key == 32) key) λ seed. some (crates.verifying_key seed)

  -- The text before `trim` ends in the space in front of an empty comment.
  unfoldable pub format_public_key : Bytes → Text
  format_public_key seed =
      let pk = crates.verifying_key seed in
      trim (
        codes "ssh-ed25519 "
        ++ (crates.base64 (wire_string key_type ++ wire_string pk) ++ (32 ∷ [])))

  abbrev pub ed25519_bytes : PublicKey → Option Bytes
  ed25519_bytes (ed25519 pk) = checked (crates.key_ok pk) pk
  ed25519_bytes other_kind = none

  unfoldable pub public_key_to_ed25519_vk : Text → Option Bytes
  public_key_to_ed25519_vk text = and_then (crates.from_openssh text) ed25519_bytes
