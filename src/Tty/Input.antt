-- ===== src/Tty/Input.antt =====
-- `map_event` of src/tty.rs: the terminal library's events, of which those that programs read are
-- translated.
use weverywhere.Prelude.{ℕ, ◌<◌, ◌^◌, ◌≡◌, Bool, Option, none, some, arith, ◌==◌, if◌then◌else◌}
use weverywhere.Prelude.Utf8.{IsScalar}
use weverywhere.Tty.{TtyEvent, IsEvent}

-- The key codes that are told apart; all others are one.
pub data KeyCode : Type 0 where
  char : ℕ → KeyCode
  enter backspace left right up down esc other : KeyCode

pub data KeyEventKind : Type 0 where
  press repeat release : KeyEventKind

-- `key` carries whether the control key is held.
pub data Event : Type 0 where
  resize : (cols rows : ℕ) → Event
  key : (code : KeyCode) (control : Bool) (kind : KeyEventKind) → Event
  other : Event

unfoldable pub map_key : KeyCode → Bool → Option TtyEvent
map_key (KeyCode.char c) control =
    if control
    then if c == b'c'
      then some TtyEvent.ctrl_c
      else if c == b'd'
      then some TtyEvent.ctrl_d
      else some (TtyEvent.char c)
    else some (TtyEvent.char c)
map_key KeyCode.enter control = some TtyEvent.enter
map_key KeyCode.backspace control = some TtyEvent.backspace
map_key KeyCode.left control = some TtyEvent.left
map_key KeyCode.right control = some TtyEvent.right
map_key KeyCode.up control = some TtyEvent.up
map_key KeyCode.down control = some TtyEvent.down
map_key KeyCode.esc control = some TtyEvent.esc
map_key KeyCode.other control = none

unfoldable pub map_event : Event → Option TtyEvent
unfolding map_key
map_event (Event.resize cols rows) = some (TtyEvent.resize cols rows)
map_event (key code control press) = map_key code control
map_event (key code control repeat) = map_key code control
map_event (key code control release) = none
map_event Event.other = none

-- What the terminal library reports: scalar characters, and sizes that are u16s.
abbrev pub IsInput : Event → Type 0
IsInput (key (KeyCode.char c) control kind) = IsScalar c
IsInput (Event.resize cols rows) = (cols < 2 ^ 16) × (rows < 2 ^ 16)
IsInput _ = Unit {0}

map_key-IsEvent :
    (code : KeyCode) (control : Bool) (kind : KeyEventKind) (e : TtyEvent)
    → IsInput (key code control kind)
    → map_key code control ≡ some e
    → IsEvent e
unfolding map_key
map_key-IsEvent (KeyCode.char c) control kind (TtyEvent.char d) v h = ground arith
map_key-IsEvent (KeyCode.char c) control kind (TtyEvent.resize m n) v h = ground arith
map_key-IsEvent code control kind e v h = ground arith

pub map_event-IsEvent : (i : Event) (e : TtyEvent) → IsInput i → map_event i ≡ some e → IsEvent e
unfolding map_event
map_event-IsEvent (Event.resize cols rows) (TtyEvent.resize c r) v h = ground arith
map_event-IsEvent (Event.resize cols rows) e v h = ground arith
map_event-IsEvent (key code control press) e v h = map_key-IsEvent code control press e v h
map_event-IsEvent (key code control repeat) e v h = map_key-IsEvent code control repeat e v h
map_event-IsEvent (key code control release) e v h = cc
map_event-IsEvent Event.other e v h = cc
