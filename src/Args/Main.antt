-- ===== src/Args/Main.antt =====
-- The start of src/main.rs: the offer to make a missing key, the command, and the exit code; and
-- `ask_user_proceed_yn` of src/sys_utils.rs.
use weverywhere.Prelude.{
  ℕ, Bool, true, false, ◌||◌, Option, none, some, Text, ◌==◌, if◌then◌else◌, any, ltb, trim_start,
  is_whitespace, ◌≡◌, refl,
}
use weverywhere.Prelude.Utf8.{codes}
use weverywhere.Args.{Args}
use weverywhere.Args.Command.{Command, generate_missing_keys, Handlers, run_command}
use mathlib.Core.List.{reverse}

abbrev trim_end : Text → Text
trim_end s = reverse (trim_start (reverse s))

-- `ask_user_proceed_yn`: the answer is the line that was read.
unfoldable pub says_yes : Text → Bool
unfolding trim_start is_whitespace
says_yes line =
    let input = trim_end line in
    any (λ c. c == b'y') input || any (λ c. c == b'Y') input || any (λ c. c == b'1') input

-- What the start finds: the configuration cannot be read, or it can and its key file holds a key or
-- not; the answer is given only if it is asked for.
pub data Found : Type 0 where
  no_config has_key : Found
  no_key : (answer : Text) → Found

pub data Notice : Type 0 where
  no_notice config_warning key_warning : Notice
  generated : (succeeded : Bool) → Notice

abbrev of_answer {ℓ} : {R : Type ℓ} → (R → Bool) → R → Bool → Notice
of_answer ok r agreed = if agreed then generated (ok r) else key_warning

abbrev is_generation : Command → Bool
is_generation generate_missing_keys = true
is_generation _ = false

-- `handle_friendly_ux_warnings`; `ok` tells whether a command succeeded.
unfoldable pub handle_friendly_ux_warnings {ℓ} :
    {R : Type ℓ} → Handlers R → (R → Bool) → Found → Command → Args → Notice
unfolding run_command says_yes
handle_friendly_ux_warnings h ok found command args =
    if is_generation command then no_notice else elim found [
      | no_config ↦ config_warning
      | has_key ↦ no_notice
      | no_key answer ↦ of_answer ok (run_command h generate_missing_keys args) (says_yes answer)
    ]

-- `async_main` and `main`: the notice, and the exit code of the process.
unfoldable pub main {ℓ} :
    {R : Type ℓ} → Handlers R → (R → Bool) → Found → Command → Args → Notice × ℕ
unfolding handle_friendly_ux_warnings run_command
main h ok found command args = (
  handle_friendly_ux_warnings h ok found command args,
  if ok (run_command h command args) then 0 else 1,
)

-- `get_global_verbosity`, and what it lets through: `none` before `main` has set it.
unfoldable pub get_global_verbosity : Option ℕ → ℕ
get_global_verbosity none = 0
get_global_verbosity (some v) = v

unfoldable pub is_logged : ℕ → Option ℕ → Bool
unfolding get_global_verbosity
is_logged level verbosity = ltb level (get_global_verbosity verbosity)

plain_yes : says_yes (codes "y\n") ≡ true
unfolding says_yes
plain_yes = refl

-- An answer that says no is taken for yes if it has a `y` in it.
polite_no : says_yes (codes "no, not today") ≡ true
unfolding says_yes
polite_no = refl
