-- ===== src/Executor/HostTtyLaws.antt =====
-- What `host::tty_next_event` of src/executor/mod.rs hands to a program: the events of the terminal.
use weverywhere.Prelude.{
  ℕ, ◌≤◌, ◌≡◌, sym, ap, ◌∙◌, Option, some, Bytes, arith, length, take_of_length-le, Option-cases,
  inl, inr,
}
use weverywhere.Foreign.Cbor.{ℤ, pos}
use weverywhere.Tty.{TtyEvent, encode_event, decode_event, IsEvent, decode_event-encode_event}
use weverywhere.Tty.Handle.{TtyHandle, next_event}
use weverywhere.Executor.Memory.{
  max0, read_guest_bytes, write_guest_bytes, write_guest_bytes-reads_back,
}
use weverywhere.Executor.Store.{Guest}
use weverywhere.Executor.Host.{reading, write}
use weverywhere.Executor.HostTty.{set_tty, with_tty, give, host_tty_next_event}

-- A write that does not trap is one into the guest's memory.
pub write-inversion :
    (g g' : Guest) (ptr cap n : ℤ) (src : Bytes)
    → write g ptr cap src ≡ some (g', n)
    → (mem mem' : Bytes) × (k : ℕ) × (g.memory ≡ some mem)
      × (write_guest_bytes (some mem) ptr cap src ≡ some (mem', k))
      × (g' ≡ record g { memory = some mem' })
      × (n ≡ pos k)
unfolding write_guest_bytes
write-inversion g g' ptr cap n src h = elim (Option-cases g.memory) [
  | inl e ↦ cc (rw e at h)
  | inr (mem, e) ↦ elim (Option-cases (write_guest_bytes (some mem) ptr cap src)) [
    | inl f ↦ cc (rw (e, f) at h)
    | inr ((mem', k), f) ↦ (mem, mem', k, e, f, cc (rw (e, f) at h), cc (rw (e, f) at h))
  ]
]

host_tty_next_event-write :
    (later : ℕ → Option TtyEvent) (g : Guest) (ptr cap timeout_ms : ℤ) (t t' : TtyHandle)
    (e : TtyEvent)
    → g.store.tty ≡ some t
    → next_event t (later (max0 timeout_ms)) ≡ (t', some e)
    → host_tty_next_event later g ptr cap timeout_ms ≡ write (set_tty g t') ptr cap (encode_event e)
unfolding host_tty_next_event
host_tty_next_event-write later g ptr cap timeout_ms t t' e attached next =
    ap (λ o. with_tty g o λ t. give g ptr cap (next_event t (later (max0 timeout_ms)))) attached
    ∙ ap (give g ptr cap) next

-- If an event is at hand and the capacity holds its encoding, then a call that does not trap writes
-- bytes that decode to this event, returns how many, and takes the event off the channel.
pub host_tty_next_event-decodes :
    (later : ℕ → Option TtyEvent) (g g' : Guest) (ptr cap timeout_ms n : ℤ) (t t' : TtyHandle)
    (e : TtyEvent)
    → g.store.tty ≡ some t
    → next_event t (later (max0 timeout_ms)) ≡ (t', some e)
    → IsEvent e
    → length (encode_event e) ≤ max0 cap
    → host_tty_next_event later g ptr cap timeout_ms ≡ some (g', n)
    → (reading (read_guest_bytes g'.memory ptr n) decode_event ≡ some e)
      × (n ≡ pos (length (encode_event e)))
      × (g'.store.tty ≡ some t')
host_tty_next_event-decodes later g g' ptr cap timeout_ms n t t' e attached next v room h =
    let written =
      sym (host_tty_next_event-write later g ptr cap timeout_ms t t' e attached next) ∙ h in
    let (mem, mem', k, em, wrote_it, eg, en) =
      write-inversion (set_tty g t') g' ptr cap n (encode_event e) written in
    let (count, _, _, _, back) =
      write_guest_bytes-reads_back mem (encode_event e) mem' ptr cap k wrote_it in
    let all : k ≡ length (encode_event e) = omega (arith, count, room) in
    (
      rw (eg, en, back, take_of_length-le k (encode_event e) (omega (arith, all)))
          (decode_event-encode_event e v),
      rw (en, all),
      ap (λ (x : Guest). x.store.tty) eg,
    )
