-- ===== src/Run/Shown.antt =====
-- What src/command/run.rs is to print of the replies to a request.
use weverywhere.Prelude.{
  ℕ, ◌≤◌, ◌≡◌, refl, sym, ap, List, [], ◌∷◌, ◌++◌, All, take_of_length-le, Bytes, Text, Option,
  none, some, length, flat_map,
}
use weverywhere.Prelude.Utf8.{from_utf8}
use weverywhere.Messages.{
  Bare, NetworkMessage, basic_insecure_program_stdout, basic_insecure_program_exit, execute_request,
  basic_return_map, basic_return_list, signed_fabric_message,
}
use weverywhere.Run.Polls.{
  Poll, datagram, socket_error, timed_out, stdout_text, stdout_binary, exited, unexpected,
  parse_error, bad_socket, stdout, shown, shown_or_error, Printed, outcome,
}

-- A message that is neither a program's output nor its exit.
abbrev pub IsOther : NetworkMessage → Type 0
IsOther (basic_insecure_program_stdout pid b) = ⊥
IsOther (basic_insecure_program_exit pid code) = ⊥
IsOther m = Unit

-- What a poll is to print.
pub data IsShown (bare : Bare) : Poll → List Printed → Type 0 where
  as_text :
      (d b : Bytes) (pid : ℕ) (s : Text)
      → bare.from_slice d ≡ some (basic_insecure_program_stdout pid b)
      → from_utf8 b ≡ some s
      → IsShown bare (datagram d) (stdout_text pid s ∷ [])
  as_bytes :
      (d b : Bytes) (pid : ℕ)
      → bare.from_slice d ≡ some (basic_insecure_program_stdout pid b)
      → from_utf8 b ≡ none
      → IsShown bare (datagram d) (stdout_binary pid b ∷ [])
  as_exit :
      (d : Bytes) (pid code : ℕ)
      → bare.from_slice d ≡ some (basic_insecure_program_exit pid code)
      → IsShown bare (datagram d) (exited pid code ∷ [])
  as_unexpected :
      (d : Bytes) (m : NetworkMessage)
      → bare.from_slice d ≡ some m
      → IsOther m
      → IsShown bare (datagram d) (unexpected m ∷ [])
  as_error : (d : Bytes) → bare.from_slice d ≡ none → IsShown bare (datagram d) (parse_error ∷ [])
  as_failure : IsShown bare socket_error (bad_socket ∷ [])
  as_nothing : IsShown bare timed_out []

-- All of them in turn.
abbrev pub AreShown : Bare → List Poll → List Printed → Type 0
AreShown bare [] printed = printed ≡ []
AreShown bare (p ∷ ps) printed =
    (now : List Printed) × (later : List Printed) × (printed ≡ now ++ later)
    × IsShown bare p now
    × AreShown bare ps later

-- A datagram that the buffer of 16 KiB holds.
abbrev pub Fits : Poll → Type 0
Fits (datagram d) = length d ≤ 16384
Fits _ = Unit

stdout-IsShown :
    (bare : Bare) (d b : Bytes) (pid : ℕ) (o : Option Text)
    → bare.from_slice d ≡ some (basic_insecure_program_stdout pid b)
    → from_utf8 b ≡ o
    → IsShown bare (datagram d) (stdout pid b o ∷ [])
stdout-IsShown bare d b pid none e f = as_bytes d b pid e f
stdout-IsShown bare d b pid (some s) e f = as_text d b pid s e f

shown_or_error-IsShown :
    (bare : Bare) (d : Bytes) (o : Option NetworkMessage)
    → bare.from_slice d ≡ o
    → IsShown bare (datagram d) (shown_or_error bare 16384 o)
unfolding shown
shown_or_error-IsShown bare d none e = as_error d e
shown_or_error-IsShown bare d (some (basic_insecure_program_stdout pid b)) e =
    stdout-IsShown bare d b pid (from_utf8 b) e refl
shown_or_error-IsShown bare d (some (basic_insecure_program_exit pid code)) e = as_exit d pid code e
shown_or_error-IsShown bare d (some (execute_request p)) e = as_unexpected d _ e tt
shown_or_error-IsShown bare d (some (basic_return_map a b c)) e = as_unexpected d _ e tt
shown_or_error-IsShown bare d (some (basic_return_list a b c)) e = as_unexpected d _ e tt
shown_or_error-IsShown bare d (some (signed_fabric_message a b c f)) e = as_unexpected d _ e tt

outcome-IsShown : (bare : Bare) (p : Poll) → Fits p → IsShown bare p (outcome bare 16384 p)
unfolding outcome
outcome-IsShown bare (datagram d) fits =
    shown_or_error-IsShown bare d _ (ap bare.from_slice (sym (take_of_length-le 16384 d fits)))
outcome-IsShown bare socket_error fits = as_failure
outcome-IsShown bare timed_out fits = as_nothing

pub outcome-AreShown :
    (bare : Bare) (ps : List Poll)
    → All Fits ps
    → AreShown bare ps (flat_map (outcome bare 16384) ps)
outcome-AreShown bare [] h = refl
outcome-AreShown bare (p ∷ ps) h =
    (_, _, refl, outcome-IsShown bare p h.0, outcome-AreShown bare ps h.1)
