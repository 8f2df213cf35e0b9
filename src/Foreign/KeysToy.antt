-- ===== src/Foreign/KeysToy.antt =====
-- Small key crates: a PEM file is its text, and the encoding of a byte is one character.
use weverywhere.Prelude.{
  ◌+◌, ◌-◌, ◌≡◌, ◌≢◌, refl, ap, true, [], ◌∷◌, map, Option, some, Bytes, Text, All, arith, drop,
  is_whitespace,
}
use weverywhere.Prelude.Utf8.{codes}
use weverywhere.Foreign.Toy.{fit}
use weverywhere.KeyFiles.{KeyCrates, IsInk, PublicKey, ed25519}

abbrev pub encoded : Bytes → Text
encoded = map (λ b. 0x10000 + b)

abbrev pub decoded : Text → Bytes
decoded = map (λ c. c - 0x10000)

pub ink_encoded_lem : (b : Bytes) → All IsInk (encoded b)
unfolding is_whitespace
ink_encoded_lem [] = tt
ink_encoded_lem (x ∷ b) = (ground arith, ink_encoded_lem b)

pub encoded-some : (b : Bytes) → b ≢ [] → encoded b ≢ []
encoded-some [] some_byte = absurd (some_byte refl)
encoded-some (x ∷ b) some_byte = λ e. cc e

pub decoded-encoded : (b : Bytes) → decoded (encoded b) ≡ b
decoded-encoded [] = refl
decoded-encoded (x ∷ b) =
    let same : 0x10000 + x - 0x10000 ≡ x = omega arith in rw (same, decoded-encoded b) refl

-- In front of the key stand the type and a space, 15 bytes for the type again, and 4 for the length.
abbrev pub toy_from_openssh : Text → Option PublicKey
toy_from_openssh t = some (ed25519 (decoded (drop 31 t)))

abbrev pub toy_crates : KeyCrates
toy_crates = record {
  pem_parse = λ t. some (codes "PRIVATE KEY", t);
  private_key_info = λ b. some b;
  octet_string = λ b. some b;
  verifying_key = fit 32;
  base64 = encoded;
  from_openssh = toy_from_openssh;
  key_ok = λ pk. true;
  base64-ink = ink_encoded_lem;
  base64-some = encoded-some;
  from_openssh-text = λ pk size. ap (λ k. some (ed25519 k)) (decoded-encoded pk);
}
