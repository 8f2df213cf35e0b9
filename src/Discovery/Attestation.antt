-- ===== src/Discovery/Attestation.antt =====
-- The signed bytes of an attestation bind hostname, public key and time.
use Prim.Native.Nat.{ℕ, zero, suc, ◌*◌, ◌/◌, ◌%◌, ◌^◌, ◌<◌}
use native.Mathlib.Nat.{pow-suc}
use weverywhere.Prelude.{
  ◌≡◌, refl, ap, sym, ◌∙◌, [], ◌∷◌, ◌++◌, arith, Bytes, Text, length, length-append, le_bytes,
  length-le_bytes,
}
use weverywhere.Prelude.Utf8.{utf8, IsText, from_utf8_lossy-utf8, from_utf8_lossy}
use weverywhere.Discovery.{attestation_signing_bytes, attestation_prefix}

append_cancel :
    (xs xs' ys ys' : Bytes)
    → length xs ≡ length xs'
    → xs ++ ys ≡ xs' ++ ys'
    → (xs ≡ xs') × (ys ≡ ys')
append_cancel [] [] ys ys' h e = (refl, e)
append_cancel [] (x ∷ xs') ys ys' h e = absurd (omega arith)
append_cancel (x ∷ xs) [] ys ys' h e = absurd (omega arith)
append_cancel (x ∷ xs) (x' ∷ xs') ys ys' h e =
    let tails : xs ++ ys ≡ xs' ++ ys' = cc in
    let (l, r) = append_cancel xs xs' ys ys' (omega arith) tails in (cc, r)

pub le_bytes-injective :
    (k n m : ℕ) → n < 256 ^ k → m < 256 ^ k → le_bytes k n ≡ le_bytes k m → n ≡ m
le_bytes-injective zero n m hn hm e = omega arith
le_bytes-injective (suc k) n m hn hm e =
    let p : 256 ^ suc k ≡ 256 ^ k * 256 = pow-suc 256 k in
    let low : n % 256 ≡ m % 256 = cc in
    let rest : le_bytes k (n / 256) ≡ le_bytes k (m / 256) = cc in
    let high : n / 256 ≡ m / 256 =
      le_bytes-injective k (n / 256) (m / 256) (omega arith) (omega arith) rest in
    omega arith

utf8-injective : (s t : Text) → IsText s → IsText t → utf8 s ≡ utf8 t → s ≡ t
utf8-injective s t hs ht e =
    sym (from_utf8_lossy-utf8 s hs) ∙ (ap from_utf8_lossy e ∙ from_utf8_lossy-utf8 t ht)

-- Two attestations with the same signed bytes and public keys of one length are of the same
-- hostname, the same public key and the same u64 time: a signature cannot be moved to another node,
-- not even with a line break in a hostname.
pub attestation_signing_bytes-injective :
    (h h' : Text) (k k' : Bytes) (e e' : ℕ)
    → IsText h
    → IsText h'
    → e < 2 ^ 64
    → e' < 2 ^ 64
    → length k ≡ length k'
    → attestation_signing_bytes h k e ≡ attestation_signing_bytes h' k' e'
    → (h ≡ h') × (k ≡ k') × (e ≡ e')
unfolding attestation_signing_bytes
attestation_signing_bytes-injective h h' k k' e e' ht ht' he he' len same =
    let tail = 10 ∷ (k ++ (10 ∷ le_bytes 8 e)) in
    let tail' = 10 ∷ (k' ++ (10 ∷ le_bytes 8 e')) in
    let body : utf8 h ++ tail ≡ utf8 h' ++ tail' =
      (append_cancel attestation_prefix attestation_prefix _ _ refl same).1 in
    let size : length (utf8 h) ≡ length (utf8 h') = omega (
      arith,
      ap length body,
      length-append (utf8 h) tail,
      length-append (utf8 h') tail',
      length-append k (10 ∷ le_bytes 8 e),
      length-append k' (10 ∷ le_bytes 8 e'),
      length-le_bytes 8 e,
      length-le_bytes 8 e',
    ) in
    let (names, tails) = append_cancel (utf8 h) (utf8 h') tail tail' size body in
    let inner : k ++ (10 ∷ le_bytes 8 e) ≡ k' ++ (10 ∷ le_bytes 8 e') = cc in
    let (keys, times) = append_cancel k k' _ _ len inner in
    let digits : le_bytes 8 e ≡ le_bytes 8 e' = cc in
    (
      utf8-injective h h' ht ht' names,
      keys,
      le_bytes-injective 8 e e' (omega arith) (omega arith) digits,
    )
