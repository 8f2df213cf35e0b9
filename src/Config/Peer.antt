-- ===== src/Config/Peer.antt =====
-- `PeerMetadata` of src/config.rs: one statically configured `[[peer]]`.
use weverywhere.Prelude.{
  Bool, true, false, List, [], ◌∷◌, ◌++◌, Option, none, some, Text, ◌==◌, ◌&&◌, if◌then◌else◌,
  is_empty, trim,
}
use weverywhere.Prelude.Utf8.{codes}
use weverywhere.Prelude.Ip.{v4_text, v6_text}
use weverywhere.Prelude.{ℕ}

-- The wire form, `PeerMetadataToml`. A `SingleTrustedKey` is its key.
pub record PeerMetadataToml : Type 0 where
  pub hostname : Option Text
  pub ipv6 : Option ℕ
  pub ipv4 : Option ℕ
  pub expected_key : Option Text

pub record PeerMetadata : Type 0 where
  pub hostname : Option Text
  pub ipv6 : Option ℕ
  pub ipv4 : Option ℕ
  pub expected_key : Option Text

pub data TryFrom : Type 0 where
  ok : PeerMetadata → TryFrom
  no_address : TryFrom

-- A blank hostname counts as unset.
abbrev pub clean_hostname : Option Text → Option Text
clean_hostname none = none
clean_hostname (some h) = let trimmed = trim h in if is_empty trimmed then none else some trimmed

abbrev pub is_none {ℓ} : {A : Type ℓ} → Option A → Bool
is_none none = true
is_none (some a) = false

unfoldable pub try_from : PeerMetadataToml → TryFrom
try_from raw =
    let hostname = clean_hostname raw.hostname in
    if is_none hostname && (is_none raw.ipv4 && is_none raw.ipv6)
    then no_address
    else ok (record {
      hostname = hostname;
      ipv6 = raw.ipv6;
      ipv4 = raw.ipv4;
      expected_key = raw.expected_key;
    })

-- `if let Some(x) = o { push(f(x)) }`.
abbrev pub push_some {ℓ} : {A : Type ℓ} → Option A → (A → Text) → List Text
push_some none f = []
push_some (some a) f = f a ∷ []

unfoldable pub connect_hosts : PeerMetadata → List Text
connect_hosts p =
    push_some p.hostname (λ h. h) ++ (push_some p.ipv6 v6_text ++ push_some p.ipv4 v4_text)

abbrev pub join : Text → List Text → Text
join sep [] = []
join sep (s ∷ []) = s
join sep (s ∷ t ∷ ss) = s ++ (sep ++ join sep (t ∷ ss))

unfoldable pub label : PeerMetadata → Text
label p = join (32 ∷ []) (
    push_some p.hostname (λ h. codes "hostname=" ++ h)
    ++ (push_some p.ipv6 (λ a. codes "ipv6=" ++ v6_text a)
        ++ push_some p.ipv4 (λ a. codes "ipv4=" ++ v4_text a)))

unfoldable pub expected_key_str : PeerMetadata → Option Text
expected_key_str p = p.expected_key

-- The character of `toml_basic_string`'s match.
unfoldable pub escape_char : ℕ → Text
escape_char c =
    if c == 34
    then 92 ∷ 34 ∷ []
    else if c == 92
    then 92 ∷ 92 ∷ []
    else if c == 10
    then 92 ∷ 110 ∷ []
    else if c == 13
    then 92 ∷ 114 ∷ []
    else if c == 9
    then 92 ∷ 116 ∷ []
    else c ∷ []

unfoldable pub escape : Text → Text
escape [] = []
escape (c ∷ s) = escape_char c ++ escape s

unfoldable pub toml_basic_string : Text → Text
toml_basic_string s = 34 ∷ (escape s ++ 34 ∷ [])

abbrev pub toml_line : Text → Text → Text
toml_line name value = name ++ (codes " = " ++ (toml_basic_string value ++ 10 ∷ []))

abbrev pub concat : List Text → Text
concat [] = []
concat (s ∷ ss) = s ++ concat ss

unfoldable pub to_pinned_toml : PeerMetadata → Text → Text
to_pinned_toml p observed_key =
    codes "[[peer]]"
    ++ (10
        ∷ (concat (push_some p.hostname (toml_line (codes "hostname")))
            ++ (concat (push_some p.ipv6 (λ a. toml_line (codes "ipv6") (v6_text a)))
                ++ (concat (push_some p.ipv4 (λ a. toml_line (codes "ipv4") (v4_text a)))
                    ++ (codes "expected_key = { key = "
                        ++ (toml_basic_string observed_key ++ (codes " }" ++ 10 ∷ [])))))))

unfoldable pub unpinned_key_warning : PeerMetadata → Text → Text
unfolding label to_pinned_toml
unpinned_key_warning p observed_key =
    codes "peer ["
    ++ (label p
        ++ (codes
              "] has no expected_key set; it advertised the key below. If you trust this server, pin it by adding the following to your weverywhere.toml:\n\n"
            ++ to_pinned_toml p observed_key))
