-- ===== src/Executor/TtyTests.antt =====
-- The terminal's imports at a program that draws and reads a key.
use weverywhere.Prelude.{◌≡◌, refl, [], ◌∷◌, none, some, arith, length, true}
use weverywhere.Prelude.Utf8.{decode}
use weverywhere.Foreign.Cbor.{pos, negsuc}
use weverywhere.Tty.{resize, encode_event, decode_event}
use weverywhere.Tty.Handle.{
  TtyHandle, Output, next_event, print, move_to, set_foreground, set_background, set_attribute, red,
  Color, Attribute, ansi_color, attribute,
}
use weverywhere.Executor.Memory.{write_guest_bytes, read_guest_bytes}
use weverywhere.Executor.Store.{Guest}
use weverywhere.Executor.Host.{reading}
use weverywhere.Executor.HostTty.{set_tty, host_tty_next_event}
use weverywhere.Executor.HostTtyLaws.{host_tty_next_event-decodes}
use weverywhere.Executor.Drawing.{
  calls, with_output, tty_print, tty_move, tty_style, tty_flush, calls-presented,
}
use weverywhere.Executor.Tests.{chat}

abbrev blank : Output
blank = record { shown = []; queued = [] }

-- A window of 80 by 24 is reported.
abbrev window : TtyHandle
window = record { takes = λ d. true; flushes = true; rx = resize 80 24 ∷ []; out = some blank }

abbrev screen : Guest
screen = record (set_tty chat window) { memory = some (0 ∷ 104 ∷ 105 ∷ 0 ∷ 0 ∷ []) }

abbrev resized : Guest
resized = record (set_tty chat (record window { rx = [] })) {
  memory = some (11 ∷ 80 ∷ 0 ∷ 24 ∷ 0 ∷ []);
}

host_tty_next_event-decodes_example :
    (reading (read_guest_bytes resized.memory (pos 0) (pos 5)) decode_event ≡ some (resize 80 24))
    × (pos 5 ≡ pos (length (encode_event (resize 80 24))))
    × (resized.store.tty ≡ some (record window { rx = [] }))
unfolding host_tty_next_event write_guest_bytes encode_event next_event
host_tty_next_event-decodes_example =
    host_tty_next_event-decodes (λ ms. none) screen resized (pos 0) (pos 8) (pos 20) (pos 5) window
      (record window { rx = [] }) (resize 80 24) refl refl (omega arith, omega arith) (omega arith)
      refl

calls-presented_example :
    calls screen (
      tty_move (negsuc 4) (pos 65538)
      ∷ tty_style (pos 9) (negsuc 0) (pos 0)
      ∷ tty_print (pos 1) (pos 2)
      ∷ tty_flush
      ∷ [])
    ≡ some (
        with_output screen window (record {
          shown =
              move_to 0 2
              ∷ set_foreground red
              ∷ set_background Color.reset
              ∷ set_attribute Attribute.reset
              ∷ print (104 ∷ 105 ∷ [])
              ∷ [];
          queued = [];
        }))
unfolding read_guest_bytes ansi_color attribute decode
calls-presented_example =
    calls-presented
      (tty_move (negsuc 4) (pos 65538)
        ∷ tty_style (pos 9) (negsuc 0) (pos 0)
        ∷ tty_print (pos 1) (pos 2)
        ∷ [])
      screen window blank _ refl refl refl refl
