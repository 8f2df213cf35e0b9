-- ===== src/Prelude/Utf8.antt =====
-- Text as code points, its UTF-8 bytes, and the standard library's `from_utf8_lossy`, `trim` and
-- little-endian bytes, as the program uses them.
use Prim.Native.Nat.{ℕ, suc, ◌+◌, ◌-◌, ◌*◌, ◌/◌, ◌%◌, ◌≤◌, ◌<◌}
use Prim.Native.Char.{code}
use Prim.Native.String.{String}
use mathlib.Core.Path.{◌≡◌, refl, ap, ◌∙◌}
use mathlib.Core.Bool.{false, ◌&&◌}
use mathlib.Core.Logic.{◌⊎◌, inl, inr}
use mathlib.Core.List.{[], ◌∷◌, ◌++◌}
use native.Mathlib.Omega.{arith}
use mathlib.Core.Option.{Option, none, some}
use weverywhere.Prelude.Tests.{
  bytes_eq, bytes_eq_refl, ltb, leb, ◌==◌, if◌then◌else◌, Bool-cases, le→leb, lt→ltb, ltb→lt,
}
use weverywhere.Prelude.Lists.{Bytes, Text, All}

-- The code points of a literal.
abbrev pub codes : String → Text
codes String.[] = []
codes (String.◌∷◌ c s) = code c ∷ codes s

abbrev pub IsScalar : ℕ → Type 0
IsScalar c = (c < 0xd800) ⊎ ((0xe000 ≤ c) × (c < 0x110000))

abbrev pub IsText : Text → Type 0
IsText = All IsScalar

abbrev pub IsBytes : Bytes → Type 0
IsBytes = All (λ b. b < 256)

-- `char::encode_utf8`.
unfoldable pub utf8_char : ℕ → Bytes
utf8_char c =
    if ltb c 0x80
    then c ∷ []
    else if ltb c 0x800
    then (0xc0 + c / 64) ∷ (0x80 + c % 64) ∷ []
    else if ltb c 0x10000
    then (0xe0 + c / 4096) ∷ (0x80 + c / 64 % 64) ∷ (0x80 + c % 64) ∷ []
    else (0xf0 + c / 262144) ∷ (0x80 + c / 4096 % 64) ∷ (0x80 + c / 64 % 64) ∷ (0x80 + c % 64) ∷ []

unfoldable pub utf8 : Text → Bytes
utf8 [] = []
utf8 (c ∷ s) = utf8_char c ++ utf8 s

-- `String::from_utf8_lossy`: within a character, so many bytes are still due, the next of them in a
-- range, and the value so far is kept.
pub data Mode : Type 0 where
  start : Mode
  more : ℕ → ℕ → ℕ → ℕ → Mode

abbrev replacement : ℕ
replacement = 0xfffd

unfoldable pub lead : ℕ → Text × Mode
lead b =
    if ltb b 0x80
    then (b ∷ [], start)
    else if ltb b 0xc2
    then (replacement ∷ [], start)
    else if ltb b 0xe0
    then ([], more 1 0x80 0xbf (b - 0xc0))
    else if b == 0xe0
    then ([], more 2 0xa0 0xbf 0)
    else if b == 0xed
    then ([], more 2 0x80 0x9f 0xd)
    else if ltb b 0xf0
    then ([], more 2 0x80 0xbf (b - 0xe0))
    else if b == 0xf0
    then ([], more 3 0x90 0xbf 0)
    else if ltb b 0xf4
    then ([], more 3 0x80 0xbf (b - 0xf0))
    else if b == 0xf4
    then ([], more 3 0x80 0x8f 4)
    else (replacement ∷ [], start)

unfoldable pub feed : Mode → ℕ → Text × Mode
feed start b = lead b
feed (more due lo hi acc) b =
    if leb lo b && leb b hi
    then (if due == 1
        then ((acc * 64 + b % 64) ∷ [], start)
        else ([], more (due - 1) 0x80 0xbf (acc * 64 + b % 64)))
    else (replacement ∷ (lead b).0, (lead b).1)

unfoldable pub decode : Mode → Bytes → Text
unfolding feed lead
decode start [] = []
decode (more due lo hi acc) [] = replacement ∷ []
decode m (b ∷ bs) = let rest = decode (feed m b).1 bs in (feed m b).0 ++ rest

abbrev pub from_utf8_lossy : Bytes → Text
from_utf8_lossy = decode start

decode_cons :
    (m : Mode) (b : ℕ) (bs : Bytes) → decode m (b ∷ bs) ≡ (feed m b).0 ++ decode (feed m b).1 bs
unfolding decode
decode_cons start b bs = refl
decode_cons (more due lo hi acc) b bs = refl

-- Reading a byte that is in range.
decode_last :
    (lo hi acc b : ℕ) (bs : Bytes)
    → lo ≤ b
    → b ≤ hi
    → decode (more 1 lo hi acc) (b ∷ bs) ≡ (acc * 64 + b % 64) ∷ decode start bs
unfolding feed
decode_last lo hi acc b bs h k = rw (decode_cons, le→leb lo b h, le→leb b hi k)

decode_next :
    (due lo hi acc b : ℕ) (bs : Bytes)
    → lo ≤ b
    → b ≤ hi
    → decode (more (suc (suc due)) lo hi acc) (b ∷ bs)
      ≡ decode (more (suc due) 0x80 0xbf (acc * 64 + b % 64)) bs
unfolding feed
decode_next due lo hi acc b bs h k =
    let e : suc (suc due) - 1 ≡ suc due = omega arith in
    let f : (suc (suc due) == 1) ≡ false = ground arith in
    rw (decode_cons, le→leb lo b h, le→leb b hi k, f, e)

-- Where the lead byte of a longer character leads.
decode-lead :
    (b : ℕ) (bs : Bytes) (m : Mode) → lead b ≡ ([], m) → decode start (b ∷ bs) ≡ decode m bs
unfolding feed
decode-lead b bs m e = rw (decode_cons, feed, e)

module _ (c : ℕ) (r : Bytes) where
  decode_one : c < 0x80 → decode start (c ∷ r) ≡ c ∷ decode start r
  unfolding feed lead
  decode_one h = rw (decode_cons, lt→ltb c 0x80 h)

  decode_two :
      0x80 ≤ c
      → c < 0x800
      → decode start ((0xc0 + c / 64) ∷ (0x80 + c % 64) ∷ r) ≡ c ∷ decode start r
  unfolding lead
  decode_two h k =
      let e : (c / 64) * 64 + (0x80 + c % 64) % 64 ≡ c = omega arith in
      decode-lead (0xc0 + c / 64) _ (more 1 0x80 0xbf (c / 64)) (ground arith)
      ∙ (decode_last 0x80 0xbf (c / 64) (0x80 + c % 64) r (omega arith) (omega arith) ∙ rw e)

  abbrev tail3 : Bytes
  tail3 = (0x80 + c / 64 % 64) ∷ (0x80 + c % 64) ∷ r

  decode_three_from :
      (lo hi : ℕ)
      → c < 0x10000
      → lo ≤ 0x80 + c / 64 % 64
      → 0x80 + c / 64 % 64 ≤ hi
      → decode (more 2 lo hi (c / 4096)) tail3 ≡ c ∷ decode start r
  decode_three_from lo hi k p q =
      let e : ((c / 4096) * 64 + (0x80 + c / 64 % 64) % 64) * 64 + (0x80 + c % 64) % 64 ≡ c =
        omega arith in
      decode_next 0 lo hi (c / 4096) (0x80 + c / 64 % 64) _ p q
      ∙ (decode_last 0x80 0xbf _ (0x80 + c % 64) r (omega arith) (omega arith) ∙ rw e)

  decode_three :
      0x800 ≤ c
      → c < 0x10000
      → IsScalar c
      → decode start ((0xe0 + c / 4096) ∷ tail3) ≡ c ∷ decode start r
  unfolding lead
  decode_three h k v = elim (Bool-cases (c / 4096 == 0)) [
    | inl low ↦
        decode-lead (0xe0 + c / 4096) tail3 (more 2 0xa0 0xbf (c / 4096)) (ground arith)
        ∙ decode_three_from 0xa0 0xbf k (ground arith) (omega arith)
    | inr up ↦ elim (Bool-cases (c / 4096 == 13)) [
      | inl gap ↦
          decode-lead (0xe0 + c / 4096) tail3 (more 2 0x80 0x9f (c / 4096)) (ground arith)
          ∙ decode_three_from 0x80 0x9f k (omega arith) (ground arith)
      | inr any ↦
          decode-lead (0xe0 + c / 4096) tail3 (more 2 0x80 0xbf (c / 4096)) (ground arith)
          ∙ decode_three_from 0x80 0xbf k (omega arith) (omega arith)
    ]
  ]

  abbrev tail4 : Bytes
  tail4 = (0x80 + c / 4096 % 64) ∷ (0x80 + c / 64 % 64) ∷ (0x80 + c % 64) ∷ r

  decode_four_from :
      (lo hi : ℕ)
      → c < 0x110000
      → lo ≤ 0x80 + c / 4096 % 64
      → 0x80 + c / 4096 % 64 ≤ hi
      → decode (more 3 lo hi (c / 262144)) tail4 ≡ c ∷ decode start r
  decode_four_from lo hi k p q =
      let e : (((c / 262144) * 64 + (0x80 + c / 4096 % 64) % 64) * 64 + (0x80 + c / 64 % 64) % 64)
              * 64
            + (0x80 + c % 64) % 64
          ≡ c =
        omega arith in
      decode_next 1 lo hi (c / 262144) (0x80 + c / 4096 % 64) _ p q
      ∙ (decode_next 0 0x80 0xbf _ (0x80 + c / 64 % 64) _ (omega arith) (omega arith)
          ∙ (decode_last 0x80 0xbf _ (0x80 + c % 64) r (omega arith) (omega arith) ∙ rw e))

  decode_four :
      0x10000 ≤ c → c < 0x110000 → decode start ((0xf0 + c / 262144) ∷ tail4) ≡ c ∷ decode start r
  unfolding lead
  decode_four h k = elim (Bool-cases (c / 262144 == 0)) [
    | inl low ↦
        decode-lead (0xf0 + c / 262144) tail4 (more 3 0x90 0xbf (c / 262144)) (ground arith)
        ∙ decode_four_from 0x90 0xbf k (ground arith) (omega arith)
    | inr up ↦ elim (Bool-cases (c / 262144 == 4)) [
      | inl last ↦
          decode-lead (0xf0 + c / 262144) tail4 (more 3 0x80 0x8f (c / 262144)) (ground arith)
          ∙ decode_four_from 0x80 0x8f k (omega arith) (ground arith)
      | inr mid ↦
          decode-lead (0xf0 + c / 262144) tail4 (more 3 0x80 0xbf (c / 262144)) (ground arith)
          ∙ decode_four_from 0x80 0xbf k (omega arith) (omega arith)
    ]
  ]

-- Decoding undoes `encode_utf8` in front of any bytes.
pub decode-utf8_char :
    (c : ℕ) (r : Bytes) → IsScalar c → decode start (utf8_char c ++ r) ≡ c ∷ decode start r
unfolding utf8_char
decode-utf8_char c r v = elim (Bool-cases (ltb c 0x80)) [
  | inl one ↦ rw one (decode_one c r (ltb→lt c 0x80 one))
  | inr up ↦ elim (Bool-cases (ltb c 0x800)) [
    | inl two ↦ rw (up, two) (decode_two c r (ground arith) (ltb→lt c 0x800 two))
    | inr up2 ↦ elim (Bool-cases (ltb c 0x10000)) [
      | inl three ↦ rw (up, up2, three) (decode_three c r (ground arith) (ltb→lt c 0x10000 three) v)
      | inr four ↦ rw (up, up2, four) (decode_four c r (ground arith) (ground arith))
    ]
  ]
]

pub from_utf8_lossy-utf8 : (s : Text) → IsText s → from_utf8_lossy (utf8 s) ≡ s
unfolding utf8 decode
from_utf8_lossy-utf8 [] v = refl
from_utf8_lossy-utf8 (c ∷ s) v =
    decode-utf8_char c (utf8 s) v.0 ∙ ap (◌∷◌ c) (from_utf8_lossy-utf8 s v.1)

-- `str::from_utf8`: the text that has these bytes, if there is one.
unfoldable pub from_utf8 : Bytes → Option Text
from_utf8 b = let s = from_utf8_lossy b in if bytes_eq (utf8 s) b then some s else none

pub from_utf8-utf8 : (s : Text) → IsText s → from_utf8 (utf8 s) ≡ some s
unfolding from_utf8
from_utf8-utf8 s v = rw (from_utf8_lossy-utf8 s v, bytes_eq_refl (utf8 s))
