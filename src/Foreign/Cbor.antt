-- ===== src/Foreign/Cbor.antt =====
-- serde_cbor, as the program uses it: the variants of `serde_cbor::Value` that the source names
-- (every other one is `other`), and encoding with its documented round trip.
use weverywhere.Prelude.{
  ℕ, suc, ◌≤◌, ◌<◌, ◌^◌, ◌≡◌, Option, none, some, Bytes, Text, ◌==◌, if◌then◌else◌,
}
use weverywhere.Prelude.Utf8.{IsText}
pub use weverywhere.Prelude.Int.{ℤ, pos, negsuc}

-- A map is a `BTreeMap`: its entries stand in the order of their keys.
mutual
  pub data Value : Type 0 where
    integer : ℤ → Value
    text : Text → Value
    bytes : Bytes → Value
    array : Items → Value
    map : Entries → Value
    other : ℕ → Value

  pub data Items : Type 0 where
    nil : Items
    cons : Value → Items → Items

  pub data Entries : Type 0 where
    end : Entries
    entry : Value → Value → Entries → Entries

-- `map.get(&Value::Integer(k))` for a k that is not negative.
unfoldable pub get : ℕ → Entries → Option Value
get k end = none
get k (entry (integer (pos n)) v es) = if n == k then some v else get k es
get k (entry (integer (negsuc n)) v es) = get k es
get k (entry (text s) v es) = get k es
get k (entry (bytes b) v es) = get k es
get k (entry (array xs) v es) = get k es
get k (entry (map m) v es) = get k es
get k (entry (other n) v es) = get k es

-- The values that the program encodes: texts of Unicode scalar values, byte strings (the items of a
-- `Bytes` stand for u8s), unsigned 64-bit integers, and arrays and maps of these. The maps are those whose keys are small integers in ascending order.
abbrev mutual
  pub IsPlain : Value → Type 0
  IsPlain (integer (pos n)) = n < 2 ^ 64
  IsPlain (integer (negsuc n)) = ⊥
  IsPlain (text s) = IsText s
  IsPlain (bytes b) = Unit {0}
  IsPlain (array xs) = IsPlainItems xs
  IsPlain (map es) = IsPlainEntries 0 es
  IsPlain (other n) = ⊥

  pub IsPlainItems : Items → Type 0
  IsPlainItems nil = Unit {0}
  IsPlainItems (cons v vs) = IsPlain v × IsPlainItems vs

  pub IsPlainEntries : ℕ → Entries → Type 0
  IsPlainEntries lo end = Unit {0}
  IsPlainEntries lo (entry (integer (pos n)) v es) =
      (lo ≤ n) × (n < 2 ^ 64) × IsPlain v × IsPlainEntries (suc n) es
  IsPlainEntries lo (entry k v es) = ⊥

pub record Cbor : Type 0 where
  pub to_vec : Value → Option Bytes
  pub from_slice : Bytes → Option Value
  -- What is encoded decodes to itself, and plain values can be encoded.
  pub round_trip :
      (v : Value) → IsPlain v → (b : Bytes) × (to_vec v ≡ some b) × (from_slice b ≡ some v)
