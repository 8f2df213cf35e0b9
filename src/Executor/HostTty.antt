-- ===== src/Executor/HostTty.antt =====
-- The imports `host::tty_…` of src/executor/mod.rs, by which a program drives the attached terminal.
use weverywhere.Prelude.{ℕ, ◌%◌, ◌^◌, ◌++◌, Option, none, some, le_bytes}
use weverywhere.Prelude.Utf8.{from_utf8_lossy}
use weverywhere.Foreign.Cbor.{ℤ, pos}
use weverywhere.Tty.{TtyEvent, encode_event}
use weverywhere.Tty.Handle.{
  TtyHandle, next_event, print_text, move_cursor, clear, style, flush, size,
}
use weverywhere.Executor.Memory.{max0, read_guest_bytes}
use weverywhere.Executor.Store.{Guest}
use weverywhere.Executor.Host.{Ret, minus_one, write, reading}

abbrev pub set_tty : Guest → TtyHandle → Guest
set_tty g t = record g { store = record g.store { tty = some t } }

-- `match &caller.data().tty { Some(tty) => …, None => Ok(-1) }`.
abbrev pub with_tty : Guest → Option TtyHandle → (TtyHandle → Ret) → Ret
with_tty g none k = some (g, minus_one)
with_tty g (some t) k = k t

-- `{ …; Ok(0) }`, for a change of the terminal.
abbrev pub done : Guest → TtyHandle → Ret
done g t = some (set_tty g t, pos 0)

unfoldable pub host_tty_available : Guest → Ret
host_tty_available g = elim g.store.tty [ none ↦ some (g, pos 0) | some t ↦ some (g, pos 1) ]

unfoldable pub host_tty_size : Option (ℕ × ℕ) → Guest → ℤ → Ret
host_tty_size reported g ptr = with_tty g g.store.tty λ t.
    let (cols, rows) = size reported in write g ptr (pos 4) (le_bytes 2 cols ++ le_bytes 2 rows)

-- `match tty.next_event(dur).await { … }`.
abbrev pub give : Guest → ℤ → ℤ → TtyHandle × Option TtyEvent → Ret
give g ptr cap (t, none) = some (set_tty g t, pos 0)
give g ptr cap (t, some e) = write (set_tty g t) ptr cap (encode_event e)

-- `later` is the event that arrives within so many milliseconds, if none waits already.
unfoldable pub host_tty_next_event : (ℕ → Option TtyEvent) → Guest → ℤ → ℤ → ℤ → Ret
host_tty_next_event later g ptr cap timeout_ms =
    with_tty g g.store.tty λ t. give g ptr cap (next_event t (later (max0 timeout_ms)))

unfoldable pub host_tty_print : Guest → ℤ → ℤ → Ret
host_tty_print g ptr len =
    reading (read_guest_bytes g.memory ptr len)
      λ b. with_tty g g.store.tty λ t. done g (print_text t (from_utf8_lossy b))

unfoldable pub host_tty_move : Guest → ℤ → ℤ → Ret
host_tty_move g col row =
    with_tty g g.store.tty λ t. done g (move_cursor t (max0 col % 2 ^ 16) (max0 row % 2 ^ 16))

unfoldable pub host_tty_clear : Guest → Ret
host_tty_clear g = with_tty g g.store.tty λ t. done g (clear t)

unfoldable pub host_tty_style : Guest → ℤ → ℤ → ℤ → Ret
host_tty_style g fg bg attrs = with_tty g g.store.tty λ t. done g (style t fg bg attrs)

unfoldable pub host_tty_flush : Guest → Ret
host_tty_flush g = with_tty g g.store.tty λ t. done g (flush t)
