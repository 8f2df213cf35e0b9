-- ===== src/Config/TomlString.antt =====
-- `toml_basic_string` against a reader of TOML basic strings.
use weverywhere.Prelude.{
  ℕ, ◌≡◌, refl, inl, inr, Bool, true, false, ◌||◌, ◌&&◌, [], ◌∷◌, ◌++◌, append_assoc, Option, none,
  some, arith, Text, ltb, ◌==◌, if◌then◌else◌, All, Bool-cases,
}
use weverywhere.Config.Peer.{escape_char, escape, toml_basic_string}

-- The control characters that TOML admits in a basic string only escaped: all but the tab.
unfoldable pub is_control : ℕ → Bool
is_control c = (ltb c 32 && (if c == 9 then false else true)) || (c == 127)

-- The character that an escape of one letter stands for, of those that the program writes.
abbrev pub unescape : ℕ → Option ℕ
unescape c =
    if c == 34
    then some 34
    else if c == 92
    then some 92
    else if c == 110
    then some 10
    else if c == 114
    then some 13
    else if c == 116
    then some 9
    else none

abbrev pub put : ℕ → Option (Text × Text) → Option (Text × Text)
put c none = none
put c (some (s, rest)) = some (c ∷ s, rest)

abbrev pub put? : Option ℕ → Option (Text × Text) → Option (Text × Text)
put? none r = none
put? (some c) r = put c r

-- The text behind an opening quote up to the closing one, and what follows.
unfoldable pub read_body : Text → Option (Text × Text)
read_body [] = none
read_body (c ∷ []) = if c == 34 then some ([], []) else none
read_body (c ∷ d ∷ s) =
    let plain = read_body (d ∷ s) in
    let escaped = read_body s in
    if c == 34
    then some ([], d ∷ s)
    else if c == 92
    then put? (unescape d) escaped
    else if is_control c
    then none
    else put c plain

unfoldable pub read_basic_string : Text → Option (Text × Text)
read_basic_string [] = none
read_basic_string (c ∷ s) = if c == 34 then read_body s else none

-- The control characters that `toml_basic_string` leaves as they are.
abbrev pub is_left_raw : ℕ → Bool
is_left_raw c = is_control c && (if c == 10 then false else if c == 13 then false else true)

read_body_char :
    (c : ℕ) (d : ℕ) (s : Text)
    → is_left_raw c ≡ false
    → read_body (escape_char c ++ (d ∷ s)) ≡ put c (read_body (d ∷ s))
unfolding read_body escape_char is_control
read_body_char c d s h = ground arith

read_body_raw :
    (c : ℕ) (d : ℕ) (s : Text) → is_left_raw c ≡ true → read_body (escape_char c ++ (d ∷ s)) ≡ none
unfolding read_body escape_char is_control
read_body_raw c d s h = ground arith

-- Some text stands before a closing quote, or the quote itself.
quoted-head : (x rest : Text) → (d : ℕ) × (t : Text) × (x ++ (34 ∷ rest) ≡ d ∷ t)
quoted-head [] rest = (34, rest, refl)
quoted-head (d ∷ x) rest = (d, x ++ (34 ∷ rest), refl)

read_body-end : (rest : Text) → read_body (34 ∷ rest) ≡ some ([], rest)
unfolding read_body
read_body-end [] = refl
read_body-end (d ∷ s) = refl

read_body-step :
    (c : ℕ) (x rest : Text)
    → is_left_raw c ≡ false
    → read_body (escape_char c ++ (x ++ (34 ∷ rest))) ≡ put c (read_body (x ++ (34 ∷ rest)))
read_body-step c x rest h = let (d, t, e) = quoted-head x rest in rw e (read_body_char c d t h)

read_body-raw_step :
    (c : ℕ) (x rest : Text)
    → is_left_raw c ≡ true
    → read_body (escape_char c ++ (x ++ (34 ∷ rest))) ≡ none
read_body-raw_step c x rest h = let (d, t, e) = quoted-head x rest in rw e (read_body_raw c d t h)

read_body-escape :
    (s rest : Text)
    → All (λ c. is_left_raw c ≡ false) s
    → read_body (escape s ++ (34 ∷ rest)) ≡ some (s, rest)
unfolding escape
read_body-escape [] rest h = read_body-end rest
read_body-escape (c ∷ s) rest h =
    rw (append_assoc, read_body-step c (escape s) rest h.0, read_body-escape s rest h.1)

-- A text without control characters, but for tab, line feed and carriage return, is written as a
-- TOML basic string that reads back as the same text, whatever follows it.
pub read-toml_basic_string :
    (s rest : Text)
    → All (λ c. is_left_raw c ≡ false) s
    → read_basic_string (toml_basic_string s ++ rest) ≡ some (s, rest)
unfolding read_basic_string toml_basic_string
read-toml_basic_string s rest h = rw append_assoc (read_body-escape s rest h)

read_body-raw :
    (s t rest : Text) (c : ℕ)
    → is_left_raw c ≡ true
    → read_body (escape (s ++ c ∷ t) ++ (34 ∷ rest)) ≡ none
unfolding escape
read_body-raw [] t rest c h = rw append_assoc (read_body-raw_step c (escape t) rest h)
read_body-raw (d ∷ s) t rest c h = elim (Bool-cases (is_left_raw d)) [
  | inl raw ↦ rw append_assoc (read_body-raw_step d (escape (s ++ c ∷ t)) rest raw)
  | inr fine ↦
      rw
        (append_assoc, read_body-step d (escape (s ++ c ∷ t)) rest fine, read_body-raw s t rest c h)
]

-- A text with any other control character is written as no TOML string at all: the character stands
-- there unescaped.
pub read-toml_basic_string_raw :
    (s t rest : Text) (c : ℕ)
    → is_left_raw c ≡ true
    → read_basic_string (toml_basic_string (s ++ c ∷ t) ++ rest) ≡ none
unfolding read_basic_string toml_basic_string
read-toml_basic_string_raw s t rest c h = rw append_assoc (read_body-raw s t rest c h)
