-- ===== src/Info.antt =====
-- src/command/info.rs: what is printed of a module. wasmtime's reading of the module is given as a
-- record, and its debug form of what the source does not spell out as a function.
use weverywhere.Prelude.{
  ℕ, ◌≡◌, refl, Bool, true, false, List, [], ◌∷◌, ◌++◌, map, Option, none, some, Text,
  if◌then◌else◌, any, bytes_eq, decimal, length,
}
use weverywhere.Prelude.Utf8.{codes}
use weverywhere.Config.Peer.{join}

pub data ValType : Type 0 where
  i32 i64 f32 f64 v128 : ValType
  other : ℕ → ValType

pub data ExternType : Type 0 where
  func : (params results : List ValType) → ExternType
  memory : (minimum : ℕ) (maximum : Option ℕ) → ExternType
  global : (is_var : Bool) (content : ValType) → ExternType
  other : ℕ → ExternType

pub record Import : Type 0 where
  pub from : Text
  pub name : Text
  pub ty : ExternType

pub record Export : Type 0 where
  pub name : Text
  pub ty : ExternType

pub record Module : Type 0 where
  pub imports : List Import
  pub exports : List Export

unfoldable pub starts_with : Text → Text → Bool
unfolding bytes_eq
starts_with [] s = true
starts_with (p ∷ ps) [] = false
starts_with (p ∷ ps) (c ∷ s) =
    let rest = starts_with ps s in if bytes_eq (c ∷ []) (p ∷ []) then rest else false

pub data Flavor : Type 0 where
  preview1 preview0 preview2 none_detected : Flavor

abbrev is_preview1 : Text → Bool
is_preview1 m = bytes_eq m (codes "wasi_snapshot_preview1")

abbrev is_preview0 : Text → Bool
is_preview0 m = bytes_eq m (codes "wasi_unstable")

-- `detect_wasi_flavor`: the first import of one of the old names decides.
unfoldable pub detect_wasi_flavor : List Text → Bool → Flavor
unfolding starts_with
detect_wasi_flavor [] saw_wasi = if saw_wasi then preview2 else none_detected
detect_wasi_flavor (m ∷ ms) saw_wasi =
    let rest = detect_wasi_flavor ms (if starts_with (codes "wasi:") m then true else saw_wasi) in
    if is_preview1 m then preview1 else if is_preview0 m then preview0 else rest

module _ (debug : ℕ → Text) where
  unfoldable pub valtype_str : ValType → Text
  valtype_str i32 = codes "i32"
  valtype_str i64 = codes "i64"
  valtype_str f32 = codes "f32"
  valtype_str f64 = codes "f64"
  valtype_str v128 = codes "v128"
  valtype_str (ValType.other v) = debug v

  unfoldable pub describe_extern : ExternType → Text
  unfolding valtype_str
  describe_extern (func params results) =
      codes "func ("
      ++ (join (codes ", ") (map valtype_str params)
          ++ (codes ") -> (" ++ (join (codes ", ") (map valtype_str results) ++ codes ")")))
  describe_extern (memory minimum (some max)) =
      codes "memory " ++ (decimal minimum ++ (codes ".." ++ (decimal max ++ codes " pages")))
  describe_extern (memory minimum none) = codes "memory " ++ (decimal minimum ++ codes ".. pages")
  describe_extern (global is_var content) =
      codes "global " ++ ((if is_var then codes "mut " else []) ++ valtype_str content)
  describe_extern (ExternType.other t) = debug t

  abbrev import_line : Import → Text
  import_line i =
      codes "  " ++ (i.from ++ (codes "::" ++ (i.name ++ (codes "  " ++ describe_extern i.ty))))

  abbrev export_line : Export → Text
  export_line e = codes "  " ++ (e.name ++ (codes "  " ++ describe_extern e.ty))

  abbrev or_none : List Text → List Text
  or_none [] = codes "  (none)" ∷ []
  or_none (l ∷ ls) = l ∷ ls

  abbrev flavor_text : Flavor → Text
  flavor_text preview1 = codes "preview1 (wasi_snapshot_preview1)"
  flavor_text preview0 = codes "preview0 (wasi_unstable)"
  flavor_text preview2 = codes "preview2 (component-model style imports)"
  flavor_text none_detected = codes "none detected (plain wasm)"

  abbrev heading : Text → ℕ → Text
  heading title n = title ++ (codes " (" ++ (decimal n ++ codes "):"))

  -- `info`, behind the file's name and size.
  unfoldable pub info : Module → List Text
  unfolding describe_extern detect_wasi_flavor
  info m =
      (codes "Kind:    "
          ++ (if any (λ e. bytes_eq e.name (codes "_start")) m.exports
              then codes "Program (has _start entry point)"
              else codes "Library"))
        ∷ (codes "WASI:    "
            ++ flavor_text (detect_wasi_flavor (map (λ i. i.from) m.imports) false))
        ∷ (10 ∷ heading (codes "Imports") (length m.imports))
        ∷ or_none (map import_line m.imports)
      ++ ((10 ∷ heading (codes "Exports") (length m.exports)) ∷ or_none (map export_line m.exports))

first_decides :
    detect_wasi_flavor
      (codes "wasi:io" ∷ codes "wasi_unstable" ∷ codes "wasi_snapshot_preview1" ∷ [])
      false
    ≡ preview0
unfolding detect_wasi_flavor bytes_eq
first_decides = refl

function_text :
    describe_extern (λ n. []) (func (i32 ∷ i64 ∷ []) (i32 ∷ [])) ≡ codes "func (i32, i64) -> (i32)"
unfolding describe_extern
function_text = refl
