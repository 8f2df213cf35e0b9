-- ===== src/Executor/Host.antt =====
-- The imports `host::…` of src/executor/mod.rs by which a program asks about its node, its caller and
-- its arguments. Each takes the running program and gives it back with the number returned, or
-- `none` for a trap.
use weverywhere.Prelude.{
  ℕ, ◌+◌, ◌-◌, ◌%◌, ◌^◌, Bool, true, false, List, [], ◌∷◌, ◌++◌, Option, none, some, Bytes, Text,
  ltb, leb, ◌==◌, if◌then◌else◌, take, drop, length, get_elem?, any, bytes_eq,
}
use weverywhere.Prelude.Utf8.{utf8, from_utf8_lossy}
use weverywhere.Foreign.Cbor.{ℤ, pos, negsuc}
use weverywhere.Executor.Memory.{as_usize, max0, write_guest_bytes, read_guest_bytes}
use weverywhere.Executor.Program.{ExecReturn}
use weverywhere.Executor.Store.{Guest}

abbrev pub Ret : Type 0
Ret = Option (Guest × ℤ)

abbrev pub minus_one : ℤ
minus_one = negsuc 0

-- `n as i32`, and `n as i64`.
abbrev pub as_signed : ℕ → ℕ → ℤ
as_signed bits n =
    let m = n % 2 ^ bits in if ltb m (2 ^ (bits - 1)) then pos m else negsuc (2 ^ bits - 1 - m)

abbrev pub wrote : Guest → Option (Bytes × ℕ) → Ret
wrote g none = none
wrote g (some (mem, n)) = some (record g { memory = some mem }, pos n)

-- A call of `write_guest_bytes` in the last place of an import.
abbrev pub write : Guest → ℤ → ℤ → Bytes → Ret
write g ptr cap src = wrote g (write_guest_bytes g.memory ptr cap src)

-- `Some(s) => write_guest_bytes(s.as_bytes()), None => Ok(-1)`.
abbrev pub write_or_minus_one : Guest → ℤ → ℤ → Option Text → Ret
write_or_minus_one g ptr cap none = some (g, minus_one)
write_or_minus_one g ptr cap (some s) = write g ptr cap (utf8 s)

-- `read_guest_bytes(…)?`.
abbrev pub reading {ℓ} : {A : Type ℓ} → Option Bytes → (Bytes → Option A) → Option A
reading none k = none
reading (some b) k = k b

-- The range is taken with the guest's numbers as usizes, whose sum wraps.
unfoldable pub host_print : Guest → ℤ → ℤ → Option Guest
host_print g ptr len = elim g.memory [
  | none ↦ none
  | some mem ↦
      let from = as_usize ptr in
      let to = (as_usize ptr + as_usize len) % 2 ^ 64 in
      if leb from to
      then if leb to (length mem)
        then some (record g { printed = g.printed ++ take (to - from) (drop from mem) ∷ [] })
        else none
      else none
]

abbrev pub one_if : Bool → ℤ
one_if true = pos 1
one_if false = pos 0

unfoldable pub host_trusts_me : Guest → Ret
host_trusts_me g = elim g.store.program_is_trusted [
  | none ↦ some (g, pos 0)
  | some trusted ↦ some (g, one_if trusted)
]

unfoldable pub host_hostname : Guest → ℤ → ℤ → Ret
host_hostname g ptr cap = write g ptr cap (utf8 g.store.hostname)

-- `fill_bytes` gives that many random bytes.
unfoldable pub host_random : (ℕ → Bytes) → Guest → ℤ → ℤ → Ret
host_random fill_bytes g ptr len = write g ptr len (fill_bytes (max0 len))

unfoldable pub host_peer_count : Guest → Ret
host_peer_count g = some (g, as_signed 32 (length g.store.peer_reports))

unfoldable pub host_peer_report : Guest → ℤ → ℤ → ℤ → Ret
host_peer_report g index ptr cap =
    write_or_minus_one g ptr cap (get_elem? g.store.peer_reports (as_usize index))

unfoldable pub host_caller_pubkey : Guest → ℤ → ℤ → Ret
host_caller_pubkey g ptr cap = write g ptr cap g.store.caller_pubkey

unfoldable pub host_depth : Guest → Ret
host_depth g = some (g, as_signed 32 g.store.depth)

unfoldable pub host_arg_len : Guest → Ret
host_arg_len g = some (g, as_signed 32 (length g.store.arg_list))

unfoldable pub host_arg_get : Guest → ℤ → ℤ → ℤ → Ret
host_arg_get g index ptr cap =
    write_or_minus_one g ptr cap (get_elem? g.store.arg_list (as_usize index))

unfoldable pub host_arg_map_len : Guest → Ret
host_arg_map_len g = some (g, as_signed 32 (length g.store.arg_map))

abbrev pub key_of : Option (Text × Text) → Option Text
key_of none = none
key_of (some (k, v)) = some k

unfoldable pub host_arg_map_key : Guest → ℤ → ℤ → ℤ → Ret
host_arg_map_key g index ptr cap =
    write_or_minus_one g ptr cap (key_of (get_elem? g.store.arg_map (as_usize index)))

-- `arg_map.iter().find(|(k, _)| *k == key).map(|(_, v)| v)`.
unfoldable pub find_arg : Text → List (Text × Text) → Option Text
find_arg key [] = none
find_arg key ((k, v) ∷ rest) = if bytes_eq k key then some v else find_arg key rest

unfoldable pub host_arg_map_get : Guest → ℤ → ℤ → ℤ → ℤ → Ret
host_arg_map_get g key_ptr key_len ptr cap =
    reading (read_guest_bytes g.memory key_ptr key_len)
      λ key. write_or_minus_one g ptr cap (find_arg (from_utf8_lossy key) g.store.arg_map)

unfoldable pub host_trusts_key : Guest → ℤ → ℤ → Ret
host_trusts_key g ptr len =
    reading (read_guest_bytes g.memory ptr len)
      λ key. some (g, one_if (any (λ k. bytes_eq k key) g.store.trusted_pubkeys))

unfoldable pub host_node_addr : Guest → ℤ → ℤ → Ret
host_node_addr g ptr cap = write_or_minus_one g ptr cap g.store.node_addr

-- `if let Ok(mut slot) = return_slot.lock()`.
abbrev pub in_slot : Guest → (ExecReturn → ExecReturn) → Guest
in_slot g f = elim g.store.return_slot [
  | none ↦ g
  | some slot ↦ record g { store = record g.store { return_slot = some (f slot) } }
]

unfoldable pub host_return_map : Guest → ℤ → ℤ → Ret
host_return_map g ptr len =
    reading (read_guest_bytes g.memory ptr len)
      λ b. some (in_slot g (λ slot. record slot { map = some b }), pos 0)

unfoldable pub host_set_forward_uuid : Guest → ℤ → ℤ → Ret
host_set_forward_uuid g ptr len = reading (read_guest_bytes g.memory ptr len) λ b.
    some (
      if length b == 16 then in_slot g (λ slot. record slot { forward_uuid = some b }) else g,
      pos 0,
    )
