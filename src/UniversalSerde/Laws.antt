-- ===== src/UniversalSerde/Laws.antt =====
-- src/universal_serde.rs: reading with an expected format against reading with none, and the round
-- trip.
use weverywhere.Prelude.{
  ◌≡◌, refl, sym, ap, ◌∙◌, ◌≢◌, Option, none, some, Bytes, Text, arith, Option-cases, inl, inr,
}
use weverywhere.Prelude.Utf8.{IsText, utf8, from_utf8-utf8}
use weverywhere.UniversalSerde.{
  Format, Serde, json, cbor, bare, first_ok, into_bytes, deserialize_json, deserialize_cbor,
  deserialize_bare, deserialize, deserialize_expected, serialize,
}

module _ {ℓ} {T : Type ℓ} (s : Serde T) where
  tagged-json : (b : Bytes) {r : T × Format} → deserialize_json s b ≡ some r → r.1 ≡ json
  unfolding deserialize_json
  tagged-json b h = ground arith

  tagged-cbor : (b : Bytes) {r : T × Format} → deserialize_cbor s b ≡ some r → r.1 ≡ cbor
  unfolding deserialize_cbor
  tagged-cbor b h = ground arith

  tagged-bare : (b : Bytes) {r : T × Format} → deserialize_bare s b ≡ some r → r.1 ≡ bare
  unfolding deserialize_bare
  tagged-bare b h = ground arith

  -- What two readers make of the same bytes: the same, or each its own value, in two formats of which
  -- the first is the expected one.
  pub data Agree (f : Format) (expected plain : Option (T × Format)) : Type ℓ where
    same : expected ≡ plain → Agree f expected plain
    two_formats :
        (t u : T) (g : Format)
        → expected ≡ some (t, f)
        → plain ≡ some (u, g)
        → g ≢ f
        → Agree f expected plain

  -- Reading with an expected format and reading with none succeed on the same bytes. They give the
  -- same value and format, unless the expected format reads the bytes and so does another, which is
  -- tried before it.
  pub deserialize_expected-Agree :
      (b : Bytes) (f : Format) → Agree f (deserialize_expected s b f) (deserialize s b)
  unfolding deserialize deserialize_expected
  deserialize_expected-Agree b json =
      same
        (elim (deserialize_json s b)
          as (λ j.
            let rest = first_ok j (first_ok (deserialize_cbor s b) (deserialize_bare s b)) in
            first_ok j rest ≡ rest) [ none ↦ refl | some r ↦ refl ])
  deserialize_expected-Agree b cbor = elim (Option-cases (deserialize_cbor s b)) [
    | inl e ↦ same (rw e)
    | inr ((t, f), e) ↦ elim (Option-cases (deserialize_json s b)) [
      | inl e' ↦ same (rw (e, e'))
      | inr ((u, g), e') ↦
          two_formats t u g (rw e (ground (arith, tagged-cbor b e))) (rw e') (cc (tagged-json b e'))
    ]
  ]
  deserialize_expected-Agree b bare = elim (Option-cases (deserialize_bare s b)) [
    | inl e ↦ same (rw e)
    | inr ((t, f), e) ↦ elim (Option-cases (deserialize_json s b)) [
      | inr ((u, g), e') ↦
          two_formats t u g (rw e (ground (arith, tagged-bare b e))) (rw e') (cc (tagged-json b e'))
      | inl e' ↦ elim (Option-cases (deserialize_cbor s b)) [
        | inl e'' ↦ same (rw (e, e', e''))
        | inr ((u, g), e'') ↦
            two_formats t u g (rw e (ground (arith, tagged-bare b e))) (rw (e', e''))
              (cc (tagged-cbor b e''))
      ]
    ]
  ]

  -- The format libraries read back what they wrote of a value.
  pub record RoundTrips (t : T) : Type ℓ where
    pub json_back :
        (x : Text) → s.json_to_string t ≡ some x → IsText x × (s.json_from_str x ≡ some t)
    pub cbor_back : (b : Bytes) → s.cbor_to_vec t ≡ some b → s.cbor_from_slice b ≡ some t
    pub bare_back : (b : Bytes) → s.bare_to_vec t ≡ some b → s.bare_from_slice b ≡ some t

  -- A value that was written in a format is read back when that format is expected, whatever else the
  -- bytes may be read as.
  pub deserialize_expected-serialize :
      (t : T) (f : Format) (b : Bytes)
      → RoundTrips t
      → serialize s t f ≡ some b
      → deserialize_expected s b f ≡ some (t, f)
  unfolding serialize deserialize_expected deserialize_json deserialize_cbor deserialize_bare
  deserialize_expected-serialize t json b back h = elim (Option-cases (s.json_to_string t)) [
    | inl e ↦ cc (sym (ap into_bytes e) ∙ h)
    | inr (x, e) ↦
        let (text, same_t) = back.json_back x e in
        let bytes : utf8 x ≡ b = ground (arith, sym (ap into_bytes e) ∙ h) in
        rw (← bytes, from_utf8-utf8 x text, same_t) refl
  ]
  deserialize_expected-serialize t cbor b back h = rw (back.cbor_back b h) refl
  deserialize_expected-serialize t bare b back h = rw (back.bare_back b h) refl
