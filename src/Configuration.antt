-- ===== src/Configuration.antt =====
-- src/command/configuration.rs and src/command/extract_programs.rs: the commands that write files.
mod Tests
use weverywhere.Prelude.{
  ℕ, ◌≡◌, ◌≢◌, refl, ap, ◌∙◌, sym, Bool, true, false, List, [], ◌∷◌, ◌++◌, Option, none, some,
  Bytes, Text, arith, if◌then◌else◌, bytes_eq, bytes_eq_ne, Bool-cases, inl, inr,
}
use weverywhere.Prelude.Utf8.{codes}
use weverywhere.Args.Command.{ConfigStyle, create_missing_keys, do_not_create_missing_keys}

-- The files of a node: the contents of each path, if there is a file.
abbrev pub Files : Type 0
Files = Text → Option Bytes

abbrev pub stored : Files → Text → Bytes → Files
stored files path b = λ p. if bytes_eq p path then some b else files p

abbrev pub exists : Option Bytes → Bool
exists none = false
exists (some b) = true

-- `generate_private_key_ed25519_pem_file`: `fresh` is the new key's file, `writes` whether a path can be
-- written. The second result tells whether it succeeded.
unfoldable pub generate_private_key : (Text → Bool) → Bytes → Files → Text → Files × Bool
generate_private_key writes fresh files path =
    if writes path then (stored files path fresh, true) else (files, false)

-- `if style == CreateMissingKeys { … }`.
abbrev pub if_missing : (Text → Bool) → Bytes → Files → Text → Bool → Files × Bool
if_missing writes fresh files keyfile true = (files, true)
if_missing writes fresh files keyfile false = generate_private_key writes fresh files keyfile

unfoldable pub ensure_key : (Text → Bool) → Bytes → ConfigStyle → Files → Text → Files × Bool
unfolding generate_private_key
ensure_key writes fresh create_missing_keys files keyfile =
    if_missing writes fresh files keyfile (exists (files keyfile))
ensure_key writes fresh do_not_create_missing_keys files keyfile = (files, true)

-- The outcome of the command.
pub data Shown : Type 0 where
  public_key : Bytes → Shown
  no_config failed : Shown

-- What follows: the key is read, and shown if it can be.
abbrev pub show_key : Option Bytes → Shown
show_key none = failed
show_key (some pk) = public_key pk

abbrev pub then_show : (Option Bytes → Option Bytes) → Text → Files × Bool → Files × Shown
then_show read_key keyfile (files, true) = (files, show_key (read_key (files keyfile)))
then_show read_key keyfile (files, false) = (files, failed)

-- `configuration`, where the configuration names a key file, or cannot be read.
unfoldable pub configuration :
    (Text → Bool)
    → Bytes
    → (Option Bytes → Option Bytes)
    → ConfigStyle
    → Option Text
    → Files
    → Files × Shown
unfolding ensure_key
configuration writes fresh read_key style none files = (files, no_config)
configuration writes fresh read_key style (some keyfile) files =
    then_show read_key keyfile (ensure_key writes fresh style files keyfile)

-- `extract_programs`: the files are written in turn, up to the first that cannot be.
unfoldable pub extract_programs : (Text → Bool) → Text → List (Text × Bytes) → Files → Files × Bool
extract_programs writes out_dir [] files = (files, true)
extract_programs writes out_dir ((name, b) ∷ rest) files =
    let path = out_dir ++ (47 ∷ (name ++ codes ".wasm")) in
    let go_on = extract_programs writes out_dir rest (stored files path b) in
    if writes path then go_on else (files, false)

then_show-files :
    (read_key : Option Bytes → Option Bytes) (keyfile : Text) (r : Files × Bool)
    → (then_show read_key keyfile r).0 ≡ r.0
then_show-files read_key keyfile (files, true) = refl
then_show-files read_key keyfile (files, false) = refl

-- Another path than that of the missing key.
missing-ne :
    (files : Files) (keyfile path : Text) (b : Bytes)
    → files path ≡ some b
    → exists (files keyfile) ≡ false
    → bytes_eq path keyfile ≡ false
missing-ne files keyfile path b h missing =
    bytes_eq_ne path keyfile (λ e. cc (sym (ap (λ p. exists (files p)) e) ∙ ap exists h, missing))

if_missing-keeps :
    (writes : Text → Bool) (fresh : Bytes) (files : Files) (keyfile path : Text) (b : Bytes)
    (x : Bool)
    → files path ≡ some b
    → exists (files keyfile) ≡ x
    → (if_missing writes fresh files keyfile x).0 path ≡ some b
unfolding generate_private_key
if_missing-keeps writes fresh files keyfile path b true h e = h
if_missing-keeps writes fresh files keyfile path b false h e =
    elim (writes keyfile)
      as (λ w.
        (if◌then◌else◌ {A = Files × Bool} w (stored files keyfile fresh, true) (files, false)).0
          path
        ≡ some b) [ true ↦ rw (missing-ne files keyfile path b h e) h | false ↦ h ]

-- No file that exists is changed, be it the key file and missing keys to be made: an identity is never
-- overwritten.
pub configuration-keeps :
    (writes : Text → Bool) (fresh : Bytes) (read_key : Option Bytes → Option Bytes)
    (style : ConfigStyle) (keyfile : Option Text) (files : Files) (path : Text) (b : Bytes)
    → files path ≡ some b
    → (configuration writes fresh read_key style keyfile files).0 path ≡ some b
unfolding configuration
configuration-keeps writes fresh read_key style none files path b h = h
configuration-keeps writes fresh read_key do_not_create_missing_keys (some keyfile) files path b h =
    h
configuration-keeps writes fresh read_key create_missing_keys (some keyfile) files path b h =
    ap (λ (fs : Files). fs path)
      (then_show-files read_key keyfile
        (if_missing writes fresh files keyfile (exists (files keyfile))))
    ∙ if_missing-keeps writes fresh files keyfile path b _ h refl
