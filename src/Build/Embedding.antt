-- ===== src/Build/Embedding.antt =====
-- The embedding of example programs in build.rs: the list of their names, the command that compiles
-- each, and the table that is generated.
use weverywhere.Prelude.{
  ℕ, ◌≡◌, refl, Bool, true, false, not, ◌&&◌, List, [], ◌∷◌, ◌++◌, map, Option, none, some, Text,
  ◌==◌, if◌then◌else◌, is_empty, keep, bytes_eq, is_whitespace, trim, trim_start,
}
use weverywhere.Prelude.Utf8.{codes}

-- `str::lines`: the parts between newlines, without a carriage return at their end, and without the
-- empty part after the last newline.
abbrev cons_line : ℕ → List Text → List Text
cons_line c [] = (c ∷ []) ∷ []
cons_line c (l ∷ ls) = (c ∷ l) ∷ ls

abbrev drop_return : ℕ → List Text → List Text
drop_return c ([] ∷ ls) = if c == 13 then [] ∷ ls else (c ∷ []) ∷ ls
drop_return c ls = cons_line c ls

unfoldable pub lines : Text → List Text
lines [] = []
lines (c ∷ []) = if c == 10 then [] ∷ [] else (c ∷ []) ∷ []
lines (c ∷ d ∷ s) =
    let rest = lines (d ∷ s) in
    if c == 10 then [] ∷ rest else if d == 10 then drop_return c rest else cons_line c rest

-- `str::split_whitespace`.
abbrev cons_word : ℕ → Bool → List Text → List Text
cons_word c true ws = (c ∷ []) ∷ ws
cons_word c false [] = (c ∷ []) ∷ []
cons_word c false (w ∷ ws) = (c ∷ w) ∷ ws

abbrev starts_blank : Text → Bool
starts_blank [] = true
starts_blank (c ∷ s) = is_whitespace c

unfoldable pub split_whitespace : Text → List Text
unfolding is_whitespace
split_whitespace [] = []
split_whitespace (c ∷ s) =
    let rest = split_whitespace s in
    if is_whitespace c then rest else cons_word c (starts_blank s) rest

unfoldable pub strip_prefix : Text → Text → Option Text
strip_prefix [] s = some s
strip_prefix (p ∷ ps) [] = none
strip_prefix (p ∷ ps) (c ∷ s) = let rest = strip_prefix ps s in if c == p then rest else none

abbrev is_name : Text → Bool
is_name [] = false
is_name (c ∷ s) = not (c == b'#')

-- `read_embed_list`, from the file's text, if it can be read.
unfoldable pub read_embed_list : Option Text → List Text
unfolding lines trim
read_embed_list none = []
read_embed_list (some contents) = keep is_name (map trim (lines contents))

unfoldable pub compile_line : List Text → Option Text
unfolding trim_start strip_prefix trim is_whitespace
compile_line [] = none
compile_line (l ∷ ls) = elim (strip_prefix (codes "// COMPILE:") (trim_start l)) [
  | some c ↦ some (trim c)
  | none ↦ compile_line ls
]

abbrev default_command : Text
default_command = codes "zig cc -target wasm32-wasi -O2 -o OUT_FILE THIS_FILE"

abbrev or_default : Option Text → Text
or_default none = default_command
or_default (some c) = c

-- `compile_command_for`, from the source's text.
unfoldable pub compile_command_for : Option Text → List Text
unfolding compile_line split_whitespace lines
compile_command_for none = split_whitespace default_command
compile_command_for (some src) = split_whitespace (or_default (compile_line (lines src)))

abbrev fill_in : Text → Text → Text → Text
fill_in this out token =
    if bytes_eq token (codes "THIS_FILE")
    then this
    else if bytes_eq token (codes "OUT_FILE")
    then out
    else token

-- What the build reads and runs: the text of a source, if there is one; whether a command succeeds;
-- and whether a file is there after it.
pub record BuildHost : Type 0 where
  pub read : Text → Option Text
  pub exists : Text → Bool
  pub succeeds : List Text → Bool
  pub produced : Text → Bool

module _ (host : BuildHost) where
  unfoldable pub compile_one : Text → Text → Bool
  unfolding compile_command_for
  compile_one source out =
      let argv = map (fill_in source out) (compile_command_for (host.read source)) in
      if is_empty argv then false else host.succeeds argv && host.produced out

  -- The loop of `embed_example_programs`: the programs that are there and compile, in their order.
  unfoldable pub entries : Text → Text → List Text → List (Text × Text)
  unfolding compile_one
  entries examples_dir out_dir [] = []
  entries examples_dir out_dir (name ∷ names) =
      let source = examples_dir ++ (b'/' ∷ (name ++ codes ".c")) in
      let out = out_dir ++ (b'/' ∷ (name ++ codes ".wasm")) in
      let rest = entries examples_dir out_dir names in
      if host.exists source
      then (if compile_one source out then (name, out) ∷ rest else rest)
      else rest

-- `write_generated_table`; `debug` is the `{:?}` of a text.
module _ (debug : Text → Text) where
  abbrev entry_line : Text × Text → Text
  entry_line (name, path) =
      codes "    (" ++ (debug name ++ (codes ", include_bytes!(" ++ (debug path ++ codes ")),\n")))

  unfoldable pub entry_lines : List (Text × Text) → Text
  entry_lines [] = []
  entry_lines (e ∷ es) = entry_line e ++ entry_lines es

  unfoldable pub generated_table : List (Text × Text) → Text
  unfolding entry_lines
  generated_table es =
      codes "// @generated by build.rs from example-programs/embedded.list — do not edit.\n"
      ++ (codes "pub static EMBEDDED_PROGRAMS: &[(&str, &[u8])] = &[\n"
          ++ (entry_lines es ++ codes "];\n"))

names_read :
    read_embed_list (some (codes "# bundled\n\n chat \r\nnetmap"))
    ≡ codes "chat" ∷ codes "netmap" ∷ []
unfolding read_embed_list
names_read = refl

words_read : split_whitespace (codes "  zig cc\t-O2 ") ≡ codes "zig" ∷ codes "cc" ∷ codes "-O2" ∷ []
unfolding split_whitespace
words_read = refl

lines_read : lines (codes "a\r\n\nb\r") ≡ codes "a" ∷ [] ∷ codes "b\r" ∷ []
unfolding lines
lines_read = refl
