-- ===== src/UniversalSerde.antt =====
-- src/universal_serde.rs: values read and written in one of three formats.
mod Laws
mod Tests
use weverywhere.Prelude.{Option, none, some, Bytes, Text}
use weverywhere.Prelude.Utf8.{utf8, from_utf8}

pub data Format : Type 0 where
  json cbor bare : Format

-- The format libraries at a type: serde_json reads and writes text, serde_cbor and serde_bare bytes.
pub record Serde {ℓ} (T : Type ℓ) : Type ℓ where
  pub json_from_str : Text → Option T
  pub cbor_from_slice : Bytes → Option T
  pub bare_from_slice : Bytes → Option T
  pub json_to_string : T → Option Text
  pub cbor_to_vec : T → Option Bytes
  pub bare_to_vec : T → Option Bytes

abbrev pub into_bytes : Option Text → Option Bytes
into_bytes none = none
into_bytes (some text) = some (utf8 text)

module _ {ℓ} {T : Type ℓ} where
  -- `let t = …?; Ok((t, format))`.
  abbrev pub tagged : Format → Option T → Option (T × Format)
  tagged f none = none
  tagged f (some t) = some (t, f)

  abbrev pub parsed : (Text → Option T) → Option Text → Option T
  parsed f none = none
  parsed f (some s) = f s

  -- `if let Ok(r) = a { return Ok(r) }`, and on.
  abbrev pub first_ok : Option (T × Format) → Option (T × Format) → Option (T × Format)
  first_ok none b = b
  first_ok (some r) b = some r

module _ {ℓ} {T : Type ℓ} (s : Serde T) where
  unfoldable pub deserialize_json : Bytes → Option (T × Format)
  deserialize_json b = tagged json (parsed s.json_from_str (from_utf8 b))

  unfoldable pub deserialize_cbor : Bytes → Option (T × Format)
  deserialize_cbor b = tagged cbor (s.cbor_from_slice b)

  unfoldable pub deserialize_bare : Bytes → Option (T × Format)
  deserialize_bare b = tagged bare (s.bare_from_slice b)

  unfoldable pub deserialize : Bytes → Option (T × Format)
  deserialize b = first_ok (deserialize_json b) (first_ok (deserialize_cbor b) (deserialize_bare b))

  unfoldable pub deserialize_expected : Bytes → Format → Option (T × Format)
  deserialize_expected b json = first_ok (deserialize_json b) (deserialize b)
  deserialize_expected b cbor = first_ok (deserialize_cbor b) (deserialize b)
  deserialize_expected b bare = first_ok (deserialize_bare b) (deserialize b)

  unfoldable pub serialize : T → Format → Option Bytes
  serialize t json = into_bytes (s.json_to_string t)
  serialize t cbor = s.cbor_to_vec t
  serialize t bare = s.bare_to_vec t
