-- ===== src/Foreign/Toy.antt =====
-- Concrete instances of the signature interface, for the tests.
use weverywhere.Prelude.{
  ℕ, ◌≡◌, refl, Bool, true, ◌++◌, arith, Bytes, length, take, length-take, length-append,
  length-replicate, replicate, bytes_eq, bytes_eq_refl,
}
use weverywhere.Foreign.Crypto.{Crypto}

-- The first `n` bytes, filled up with zeros.
abbrev pub fit : ℕ → Bytes → Bytes
fit n b = take n (b ++ replicate n 0)

pub length-fit : (n : ℕ) (b : Bytes) → length (fit n b) ≡ n
length-fit n b = omega (
  arith,
  length-take n (b ++ replicate n 0),
  length-append b (replicate n 0),
  length-replicate {A = ℕ} n 0,
)

-- Not a secure scheme: the signature is the key and the message, cut to 64 bytes.
unfoldable pub toy_sign : Bytes → Bytes → Bytes
toy_sign sk msg = fit 64 (fit 32 sk ++ msg)

unfoldable pub toy_verify : Bytes → Bytes → Bytes → Bool
toy_verify pk msg sig = bytes_eq sig (fit 64 (pk ++ msg))

pub toy_sign-length : (sk msg : Bytes) → length (toy_sign sk msg) ≡ 64
unfolding toy_sign
toy_sign-length sk msg = length-fit 64 (fit 32 sk ++ msg)

pub toy_verify-sign : (sk msg : Bytes) → toy_verify (fit 32 sk) msg (toy_sign sk msg) ≡ true
unfolding toy_sign toy_verify
toy_verify-sign sk msg = bytes_eq_refl (fit 64 (fit 32 sk ++ msg))

abbrev pub toy_crypto : Crypto
toy_crypto = record {
  sha256 = fit 32;
  public_of = fit 32;
  sign = toy_sign;
  key_ok = λ pk. true;
  verify = toy_verify;
  public-length = length-fit 32;
  public-key_ok = λ sk. refl;
  sign-length = toy_sign-length;
  verify-sign = toy_verify-sign;
}
