-- ===== src/Tty/Tests.antt =====
-- The encoding of terminal events, and the mapping of keys, at concrete events.
use weverywhere.Prelude.{List, ◌≡◌, refl, true, false, [], ◌∷◌, none, some}
use weverywhere.Tty.Session.{Accepts, Action, draws, presents}
use weverywhere.Tty.{TtyEvent, encode_event}
use weverywhere.Tty.Input.{KeyCode, key, press, release, map_event}
use weverywhere.Tty.Handle.{attribute, bold, reverse}
use weverywhere.Foreign.Cbor.{pos}

window_size : encode_event (TtyEvent.resize 300 50) ≡ 11 ∷ 44 ∷ 1 ∷ 50 ∷ 0 ∷ []
unfolding encode_event
window_size = refl

interrupt : map_event (key (KeyCode.char b'c') true press) ≡ some TtyEvent.ctrl_c
unfolding map_event
interrupt = refl

released : map_event (key KeyCode.enter false release) ≡ none
unfolding map_event
released = refl

-- Of bold and reverse, only bold is set; and 8 has none of the bits, but is reverse.
one_attribute : attribute (pos 5) ≡ bold
unfolding attribute
one_attribute = refl

no_bit : attribute (pos 8) ≡ reverse
unfolding attribute
no_bit = refl

abbrev all_accepted : Accepts
all_accepted = record { mode = true; queues = λ c. true; flushes = true }

-- The program draws twice, and its second flush fails.
abbrev drawn : List (Accepts × Action)
drawn =
    (all_accepted, draws)
    ∷ (all_accepted, presents)
    ∷ (all_accepted, draws)
    ∷ (record all_accepted { flushes = false }, presents)
    ∷ []
