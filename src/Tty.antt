-- ===== src/Tty.antt =====
-- src/tty.rs: the terminal events that a program reads, and their encoding.
pub mod Session
pub mod Reader
pub mod Input
pub mod Handle
mod Tests
use weverywhere.Prelude.{
  ℕ, zero, suc, ◌<◌, ◌^◌, ◌+◌, ◌*◌, ◌%◌, ◌/◌, ◌≡◌, refl, sym, ap, ◌∙◌, List, [], ◌∷◌, ◌++◌, Option,
  none, some, Bytes, Text, arith, le_bytes, if◌then◌else◌, ◌==◌,
}
use weverywhere.Prelude.Utf8.{IsScalar, utf8, from_utf8_lossy, from_utf8_lossy-utf8}

pub data TtyEvent : Type 0 where
  char : ℕ → TtyEvent
  enter backspace left right up down ctrl_c ctrl_d esc : TtyEvent
  resize : (cols rows : ℕ) → TtyEvent

-- The tags of `event_kind`, in order from 1.
unfoldable pub encode_event : TtyEvent → Bytes
encode_event (char c) = 1 ∷ utf8 (c ∷ [])
encode_event enter = 2 ∷ []
encode_event backspace = 3 ∷ []
encode_event left = 4 ∷ []
encode_event right = 5 ∷ []
encode_event up = 6 ∷ []
encode_event down = 7 ∷ []
encode_event ctrl_c = 8 ∷ []
encode_event ctrl_d = 9 ∷ []
encode_event esc = 10 ∷ []
encode_event (resize cols rows) = 11 ∷ (le_bytes 2 cols ++ le_bytes 2 rows)

-- The values of an event: a character is a Unicode scalar value, a size two u16s.
abbrev pub IsEvent : TtyEvent → Type 0
IsEvent (char c) = IsScalar c
IsEvent (resize cols rows) = (cols < 2 ^ 16) × (rows < 2 ^ 16)
IsEvent _ = Unit {0}

-- What a program can read from the bytes: the tag, and behind it a character or two little-endian
-- u16s.
abbrev first_char : Text → Option TtyEvent
first_char [] = none
first_char (c ∷ cs) = some (char c)

abbrev sizes : Bytes → Option TtyEvent
sizes (a ∷ b ∷ c ∷ d ∷ []) = some (resize (a + 256 * b) (c + 256 * d))
sizes _ = none

unfoldable pub decode_event : Bytes → Option TtyEvent
decode_event [] = none
decode_event (kind ∷ payload) =
    if kind == 1
    then first_char (from_utf8_lossy payload)
    else if kind == 2
    then some enter
    else if kind == 3
    then some backspace
    else if kind == 4
    then some left
    else if kind == 5
    then some right
    else if kind == 6
    then some up
    else if kind == 7
    then some down
    else if kind == 8
    then some ctrl_c
    else if kind == 9
    then some ctrl_d
    else if kind == 10
    then some esc
    else if kind == 11
    then sizes payload
    else none

-- Every event of scalar characters and u16 sizes can be read back from its encoding, so no two events
-- look alike to a program.
pub decode_event-encode_event : (e : TtyEvent) → IsEvent e → decode_event (encode_event e) ≡ some e
unfolding encode_event decode_event
decode_event-encode_event (char c) v = ap first_char (from_utf8_lossy-utf8 (c ∷ []) (v, tt))
decode_event-encode_event (resize cols rows) v =
    let c : cols % 256 + 256 * (cols / 256 % 256) ≡ cols = omega (arith, v.0) in
    let r : rows % 256 + 256 * (rows / 256 % 256) ≡ rows = omega (arith, v.1) in rw (c, r) refl
decode_event-encode_event enter v = refl
decode_event-encode_event backspace v = refl
decode_event-encode_event left v = refl
decode_event-encode_event right v = refl
decode_event-encode_event up v = refl
decode_event-encode_event down v = refl
decode_event-encode_event ctrl_c v = refl
decode_event-encode_event ctrl_d v = refl
decode_event-encode_event esc v = refl
