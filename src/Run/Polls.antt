-- ===== src/Run/Polls.antt =====
-- The loops of src/command/run.rs that read the replies to a request: `read_daemon_replies`, and the
-- same loop in `run_one_iface`.
use weverywhere.Prelude.{
  ℕ, zero, suc, ◌+◌, ◌%◌, ◌^◌, List, [], ◌∷◌, ◌++◌, Option, none, some, Bytes, Text, take,
}
use weverywhere.Prelude.Utf8.{from_utf8}
use weverywhere.Messages.{
  Bare, NetworkMessage, basic_insecure_program_stdout, basic_insecure_program_exit,
}

-- One wait of 100 ms: a datagram came in, the socket failed, or neither.
pub data Poll : Type 0 where
  datagram : Bytes → Poll
  socket_error timed_out : Poll

pub data Printed : Type 0 where
  stdout_text : (from_pid : ℕ) → Text → Printed
  stdout_binary : (from_pid : ℕ) → Bytes → Printed
  exited : (from_pid exit_code : ℕ) → Printed
  unexpected : NetworkMessage → Printed
  parse_error bad_socket : Printed

-- What the loop printed, and how many waits passed with nothing.
pub record Replies : Type 0 where
  pub printed : List Printed
  pub timeouts : ℕ

abbrev pub stdout : ℕ → Bytes → Option Text → Printed
stdout pid b none = stdout_binary pid b
stdout pid b (some s) = stdout_text pid s

unfoldable pub shown : NetworkMessage → Printed
shown (basic_insecure_program_stdout pid b) = stdout pid b (from_utf8 b)
shown (basic_insecure_program_exit pid code) = exited pid code
shown m = unexpected m

module _ (bare : Bare) (buf : ℕ) where
  -- The message of a poll, if one is parsed. `recv` fills the buffer and drops what does not fit.
  abbrev pub message : Poll → Option NetworkMessage
  message (datagram d) = bare.from_slice (take buf d)
  message p = none

  abbrev pub shown_or_error : Option NetworkMessage → List Printed
  shown_or_error none = parse_error ∷ []
  shown_or_error (some m) = shown m ∷ []

  -- What one poll prints.
  unfoldable pub outcome : Poll → List Printed
  outcome (datagram d) = shown_or_error (bare.from_slice (take buf d))
  outcome socket_error = bad_socket ∷ []
  outcome timed_out = []

  -- `remaining_100ms_checks += 10` on a message.
  abbrev pub extended : Option NetworkMessage → ℕ → ℕ
  extended none checks = checks
  extended (some m) checks = (checks + 10) % 2 ^ 64

  abbrev pub waited : Poll → ℕ
  waited timed_out = 1
  waited p = 0

  abbrev pub and_then : List Printed → ℕ → Option Replies → Option Replies
  and_then ps n none = none
  and_then ps n (some r) = some (record { printed = ps ++ r.printed; timeouts = n + r.timeouts })

  -- `none` is the end of the fuel. Once the polls are used up, nothing more comes in.
  unfoldable pub read_replies : ℕ → ℕ → List Poll → Option Replies
  read_replies zero checks ps = none
  read_replies (suc fuel) zero ps = some (record { printed = []; timeouts = 0 })
  read_replies (suc fuel) (suc checks) [] = and_then [] 1 (read_replies fuel checks [])
  read_replies (suc fuel) (suc checks) (p ∷ ps) =
      and_then (outcome p) (waited p) (read_replies fuel (extended (message p) checks) ps)
