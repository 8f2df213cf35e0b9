-- ===== src/KeyFiles/Laws.antt =====
-- The keys of src/crypto_utils.rs: the two readers of a key file agree, and the text of a public key
-- reads back.
use weverywhere.Prelude.{
  ℕ, ◌≡◌, ◌≢◌, refl, sym, ap, ◌∙◌, true, [], ◌∷◌, ◌++◌, append_assoc, Option, none, some, Bytes,
  Text, All, All-append, subst, arith, length, trim, trim_start, is_whitespace,
}
use weverywhere.Prelude.Utf8.{codes}
use mathlib.Core.List.{reverse, reverse-append, reverse-reverse}
use weverywhere.KeyFiles.{
  KeyCrates, IsInk, and_then, read_private_key, read_public_key, format_public_key,
  public_key_to_ed25519_vk, wire_string, key_type, ed25519_bytes,
}

abbrev pub some_of : (Bytes → Bytes) → Bytes → Option Bytes
some_of f b = some (f b)

module _ (crates : KeyCrates) where
  -- The reader of the public key accepts the files that the reader of the private key accepts, and gives
  -- the public key of the key that this one reads.
  pub read_public_key-private :
      (contents : Option Text)
      → read_public_key crates contents
        ≡ and_then (read_private_key crates contents) (some_of crates.verifying_key)
  unfolding read_public_key read_private_key
  read_public_key-private none = refl
  read_public_key-private (some text) = ground arith

All-reverse : (b : Text) → All IsInk b → All IsInk (reverse b)
All-reverse [] h = tt
All-reverse (c ∷ b) h =
    subst (All IsInk) (sym (reverse-append (c ∷ []) b))
      (All-append IsInk (reverse b) (c ∷ []) (All-reverse b h.1) (h.0, tt))

reverse-some : (b : Text) → b ≢ [] → reverse b ≢ []
reverse-some b some_char e = some_char (sym (reverse-reverse b) ∙ ap reverse e)

trim_start-ink : (b t : Text) → All IsInk b → b ≢ [] → trim_start (b ++ t) ≡ b ++ t
unfolding trim_start
trim_start-ink [] t h some_char = absurd (some_char refl)
trim_start-ink (c ∷ b) t h some_char = rw h.0 refl

-- Trimming takes the one space from the end of a text that starts and ends otherwise.
trim-space :
    (c : ℕ) (s b : Text)
    → IsInk c
    → All IsInk b
    → b ≢ []
    → trim ((c ∷ s) ++ (b ++ (32 ∷ []))) ≡ (c ∷ s) ++ b
unfolding trim
trim-space c s b first ink some_char =
    let whole = (c ∷ s) ++ b in
    let padded = (c ∷ s) ++ (b ++ (32 ∷ [])) in
    let back : reverse padded ≡ 32 ∷ reverse whole =
      ap reverse (sym (append_assoc (c ∷ s) b (32 ∷ []))) ∙ reverse-append whole (32 ∷ []) in
    let kept : trim_start (reverse whole) ≡ reverse whole =
      subst (λ x. trim_start x ≡ x) (sym (reverse-append (c ∷ s) b))
        (trim_start-ink (reverse b) (reverse (c ∷ s)) (All-reverse b ink)
          (reverse-some b some_char)) in
    let start : trim_start padded ≡ padded = trim_start-ink (c ∷ []) _ (first, tt) (λ e. cc e) in
    ap (λ x. reverse (trim_start (reverse x))) start
    ∙ ap (λ x. reverse (trim_start x)) back
    ∙ ap reverse kept
    ∙ reverse-reverse whole

module _ (crates : KeyCrates) (seed : Bytes) where
  -- The text of a public key reads back as the key, if that has 32 bytes and is a valid point.
  pub public_key_to_ed25519_vk-format_public_key :
      length (crates.verifying_key seed) ≡ 32
      → crates.key_ok (crates.verifying_key seed) ≡ true
      → public_key_to_ed25519_vk crates (format_public_key crates seed)
        ≡ some (crates.verifying_key seed)
  unfolding public_key_to_ed25519_vk format_public_key is_whitespace
  public_key_to_ed25519_vk-format_public_key size ok =
      let pk = crates.verifying_key seed in
      let wire = wire_string key_type ++ wire_string pk in
      let text : format_public_key crates seed ≡ key_type ++ (32 ∷ crates.base64 wire) =
        trim-space b's' (codes "sh-ed25519 ") (crates.base64 wire) refl (crates.base64-ink wire)
          (crates.base64-some wire (λ e. cc e)) in
      ap (λ t. and_then (crates.from_openssh t) (ed25519_bytes crates)) text
      ∙ ap (λ o. and_then o (ed25519_bytes crates)) (crates.from_openssh-text pk size)
      ∙ rw ok refl
