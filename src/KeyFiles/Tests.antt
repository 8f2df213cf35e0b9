-- ===== src/KeyFiles/Tests.antt =====
-- The keys with small crates.
use weverywhere.Prelude.{◌≡◌, refl, some, replicate, bytes_eq}
use weverywhere.KeyFiles.{read_private_key}
use weverywhere.Foreign.KeysToy.{toy_crates}

reads_key : read_private_key toy_crates (some (replicate 32 7)) ≡ some (replicate 32 7)
unfolding read_private_key bytes_eq
reads_key = refl
