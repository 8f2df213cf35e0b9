-- ===== src/Tty/Handle.antt =====
-- `TtyHandle` of src/tty.rs: the attached terminal, as the commands that were queued for it, those
-- that a flush has presented, and the events that wait on its channel.
use weverywhere.Prelude.{
  ℕ, ◌-◌, ◌/◌, ◌%◌, ◌^◌, Bool, false, List, [], ◌∷◌, ◌++◌, Option, none, some, Text, ◌==◌,
  if◌then◌else◌, keep,
}
use weverywhere.Foreign.Cbor.{ℤ, pos, negsuc}
use weverywhere.Tty.{TtyEvent}

pub data Color : Type 0 where
  black dark_red dark_green dark_yellow dark_blue dark_magenta dark_cyan grey : Color
  dark_grey red green yellow blue magenta cyan white reset : Color

pub data Attribute : Type 0 where
  reset bold underlined reverse : Attribute

-- What is queued for the terminal.
pub data Draw : Type 0 where
  print : Text → Draw
  move_to : (col row : ℕ) → Draw
  clear_all : Draw
  set_foreground : Color → Draw
  set_background : Color → Draw
  set_attribute : Attribute → Draw

pub record Output : Type 0 where
  pub shown : List Draw
  pub queued : List Draw

-- A `none` in `out` is a poisoned lock. `takes` and `flushes` are what the terminal accepts: the queueing
-- of a command, and a flush.
pub record TtyHandle : Type 0 where
  pub takes : Draw → Bool
  pub flushes : Bool
  pub rx : List TtyEvent
  pub out : Option Output

-- `later` is what the reader thread sends within the timeout, if no event waits already.
unfoldable pub next_event : TtyHandle → Option TtyEvent → TtyHandle × Option TtyEvent
next_event t later = elim t.rx [ [] ↦ (t, later) | e ∷ rest ↦ (record t { rx = rest }, some e) ]

-- `if let Ok(mut o) = self.out.lock() { let _ = o.queue(…); … }`: a command that is refused is left out.
unfoldable pub queue : TtyHandle → List Draw → TtyHandle
queue t ds = elim t.out [
  | none ↦ t
  | some o ↦ record t { out = some (record o { queued = o.queued ++ keep t.takes ds }) }
]

unfoldable pub print_text : TtyHandle → Text → TtyHandle
print_text t s = queue t (print s ∷ [])

unfoldable pub move_cursor : TtyHandle → ℕ → ℕ → TtyHandle
move_cursor t col row = queue t (move_to col row ∷ [])

unfoldable pub clear : TtyHandle → TtyHandle
clear t = queue t (clear_all ∷ [])

abbrev pub color_of : ℕ → Color
color_of c =
    if c == 0
    then black
    else if c == 1
    then dark_red
    else if c == 2
    then dark_green
    else if c == 3
    then dark_yellow
    else if c == 4
    then dark_blue
    else if c == 5
    then dark_magenta
    else if c == 6
    then dark_cyan
    else if c == 7
    then grey
    else if c == 8
    then dark_grey
    else if c == 9
    then red
    else if c == 10
    then green
    else if c == 11
    then yellow
    else if c == 12
    then blue
    else if c == 13
    then magenta
    else if c == 14
    then cyan
    else if c == 15
    then white
    else Color.reset

unfoldable pub ansi_color : ℤ → Color
ansi_color (pos c) = color_of c
ansi_color (negsuc c) = Color.reset

-- The bit `k` of a number in two's complement.
abbrev pub bit : ℕ → ℤ → ℕ
bit k (pos n) = n / 2 ^ k % 2
bit k (negsuc n) = 1 - n / 2 ^ k % 2

abbrev pub is_zero : ℤ → Bool
is_zero (pos n) = n == 0
is_zero (negsuc n) = false

unfoldable pub attribute : ℤ → Attribute
attribute attrs =
    if is_zero attrs
    then Attribute.reset
    else if bit 0 attrs == 1
    then bold
    else if bit 1 attrs == 1
    then underlined
    else reverse

unfoldable pub style : TtyHandle → ℤ → ℤ → ℤ → TtyHandle
style t fg bg attrs = queue t (
    set_foreground (ansi_color fg)
    ∷ set_background (ansi_color bg)
    ∷ set_attribute (attribute attrs)
    ∷ [])

-- A flush that fails presents nothing, and its error is ignored.
unfoldable pub flush : TtyHandle → TtyHandle
flush t = elim t.out [
  | none ↦ t
  | some o ↦
      if t.flushes
      then record t { out = some (record { shown = o.shown ++ o.queued; queued = [] }) }
      else t
]

-- `reported` is what the terminal library says of the size.
unfoldable pub size : Option (ℕ × ℕ) → ℕ × ℕ
size none = (80, 24)
size (some s) = s
