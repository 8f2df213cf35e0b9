-- ===== src/Config/Shifting.antt =====
-- What the signatures do not bind: the borders between the parts that are hashed one after another.
use Prim.Native.Nat.{ℕ, zero, suc, ◌+◌, ◌*◌, ◌/◌, ◌%◌, ◌^◌, ◌<◌}
use native.Mathlib.Nat.{pow-suc}
use weverywhere.Prelude.{
  ◌≡◌, ap, ◌∙◌, ◌≢◌, [], ◌∷◌, ◌++◌, append_assoc, arith, Bytes, Text, le_bytes, lt→ltb, length,
  length-append,
}
use weverywhere.Prelude.Utf8.{utf8, utf8_char}
use weverywhere.Foreign.Crypto.{Crypto}
use weverywhere.Config.Identity.{
  IdentityData, identity_bytes, check_hash, check_self_signature, verify_payload,
}

le_bytes-snoc :
    (k n b : ℕ)
    → n < 256 ^ k
    → b < 256
    → le_bytes (suc k) (n + b * 256 ^ k) ≡ le_bytes k n ++ b ∷ []
le_bytes-snoc zero n b hn hb =
    let e : (n + b * 256 ^ 0) % 256 ≡ b = omega arith in ap (λ x. x ∷ []) e
le_bytes-snoc (suc k) n b hn hb =
    let p : 256 ^ suc k ≡ 256 ^ k * 256 = pow-suc 256 k in
    let q : b * 256 ^ suc k ≡ b * (256 ^ k * 256) = ap (λ (t : ℕ). b * t) p in
    let low : (n + b * 256 ^ suc k) % 256 ≡ n % 256 = omega (arith, q) in
    let high : (n + b * 256 ^ suc k) / 256 ≡ n / 256 + b * 256 ^ k = omega (arith, q) in
    let below : n / 256 < 256 ^ k = omega (arith, p) in
    rw (low, high) (ap (◌∷◌ (n % 256)) (le_bytes-snoc k (n / 256) b below hb))

utf8-snoc : (s : Text) (c : ℕ) → c < 0x80 → utf8 (s ++ c ∷ []) ≡ utf8 s ++ c ∷ []
unfolding utf8 utf8_char
utf8-snoc [] c h = rw (lt→ltb c 0x80 h)
utf8-snoc (d ∷ s) c h = rw append_assoc (ap (◌++◌ (utf8_char d)) (utf8-snoc s c h))

-- The identity with the low byte of its time moved to the end of the name, and the bytes behind
-- moved up by one, the first character of the format hint included.
unfoldable pub shifted : IdentityData → ℕ → Text → IdentityData
shifted d c fmt = record d {
  human_name = d.human_name ++ d.generated_at_utc0_epoch_s % 256 ∷ [];
  generated_at_utc0_epoch_s = d.generated_at_utc0_epoch_s / 256 + d.validity_s % 256 * 2 ^ 56;
  validity_s = d.validity_s / 256 + c * 256;
  encoded_public_key_fmt = fmt;
}

-- Both identities feed the same bytes to the hasher.
identity_bytes-shifted :
    (name fmt : Text) (key : Bytes) (e v c : ℕ)
    → c < 0x80
    → e % 256 < 0x80
    → e < 2 ^ 64
    → v < 2 ^ 16
    → identity_bytes (name ++ e % 256 ∷ []) (e / 256 + v % 256 * 2 ^ 56) (v / 256 + c * 256) fmt key
      ≡ identity_bytes name e v (c ∷ fmt) key
unfolding identity_bytes utf8 utf8_char
identity_bytes-shifted name fmt key e v c small ascii time short =
    let times : le_bytes 8 (e / 256 + v % 256 * 2 ^ 56) ≡ le_bytes 7 (e / 256) ++ (v % 256) ∷ [] =
      le_bytes-snoc 7 (e / 256) (v % 256) (omega arith) (omega arith) in
    let low : (v / 256 + c * 256) % 256 ≡ v / 256 % 256 = omega arith in
    let high : (v / 256 + c * 256) / 256 % 256 ≡ c = omega arith in
    let rest = le_bytes 2 (v / 256 + c * 256) ++ (utf8 fmt ++ key) in
    rw (utf8-snoc name (e % 256) ascii) (
      ap (λ (t : Bytes). (utf8 name ++ e % 256 ∷ []) ++ (t ++ rest)) times
      ∙ rw (low, high, lt→ltb c 0x80 small, append_assoc))

-- The self-signature does not bind the name: any identity whose time has an ASCII low byte, and whose
-- format hint starts with an ASCII character, can be altered to another, longer name, with the bytes
-- of its time, validity and hint moved up by one, and the check has the same outcome for both. The time is a u64 and the validity
-- a u16.
pub check_self_signature-shifted :
    (crypto : Crypto) (d : IdentityData) (c : ℕ) (fmt : Text)
    → d.encoded_public_key_fmt ≡ c ∷ fmt
    → c < 0x80
    → d.generated_at_utc0_epoch_s % 256 < 0x80
    → d.generated_at_utc0_epoch_s < 2 ^ 64
    → d.validity_s < 2 ^ 16
    → (check_self_signature crypto (shifted d c fmt) ≡ check_self_signature crypto d)
      × ((shifted d c fmt).human_name ≢ d.human_name)
unfolding check_self_signature shifted
check_self_signature-shifted crypto d c fmt hint small ascii time short = (
  rw hint (
      ap (λ (t : Bytes). check_hash crypto d.encoded_public_key (crypto.sha256 t) d.signature)
        (identity_bytes-shifted d.human_name fmt d.encoded_public_key d.generated_at_utc0_epoch_s
          d.validity_s c small ascii time short)),
  λ same. absurd (
      omega (
        arith,
        ap (λ (t : Text). length t) same,
        length-append d.human_name (d.generated_at_utc0_epoch_s % 256 ∷ []),
      )),
)

-- Nor does the signature of a fabric message bind where its id ends: it verifies for every other
-- split of the same bytes into id and payload.
pub verify_payload-shifted :
    (crypto : Crypto) (d : IdentityData) (id id' payload payload' signature : Bytes)
    → id ++ payload ≡ id' ++ payload'
    → verify_payload crypto d id payload signature ≡ verify_payload crypto d id' payload' signature
unfolding verify_payload
verify_payload-shifted crypto d id id' payload payload' signature same = rw same
