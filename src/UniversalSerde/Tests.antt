-- ===== src/UniversalSerde/Tests.antt =====
-- Reading and writing in three formats, with small libraries: numbers below 10, written as a decimal
-- digit, as a byte, and as the byte behind a tag.
use weverywhere.Prelude.{
  ℕ, ◌+◌, ◌-◌, [], ◌∷◌, Option, none, some, Bytes, Text, arith, leb, ltb, ◌&&◌, ◌==◌, if◌then◌else◌,
}
use weverywhere.UniversalSerde.{Serde}
use weverywhere.UniversalSerde.Laws.{RoundTrips}

abbrev digit : Text → Option ℕ
digit (c ∷ []) = if leb 48 c && ltb c 58 then some (c - 48) else none
digit _ = none

abbrev byte : Bytes → Option ℕ
byte (b ∷ []) = some b
byte _ = none

abbrev tagged_byte : Bytes → Option ℕ
tagged_byte (t ∷ b ∷ []) = if t == 24 then some b else none
tagged_byte _ = none

abbrev digits : Serde ℕ
digits = record {
  json_from_str = digit;
  cbor_from_slice = tagged_byte;
  bare_from_slice = byte;
  json_to_string = λ n. if ltb n 10 then some ((n + 48) ∷ []) else none;
  cbor_to_vec = λ n. some (24 ∷ n ∷ []);
  bare_to_vec = λ n. some (n ∷ []);
}

seven-RoundTrips : RoundTrips digits 7
seven-RoundTrips = record {
  json_back = λ x h. ground arith;
  cbor_back = λ b h. ground arith;
  bare_back = λ b h. ground arith;
}
