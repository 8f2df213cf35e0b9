-- ===== src/Firewall.antt =====
-- src/firewall.rs: the opening of the UDP port in the firewall of the host.
use weverywhere.Prelude.{
  ℕ, ◌≡◌, refl, Bool, true, false, List, [], ◌∷◌, ◌++◌, Option, none, some, Text, decimal,
}
use weverywhere.Prelude.Utf8.{codes}
use weverywhere.Daemon.{Platform, linux, macos, windows, other}

-- A tool with its arguments.
pub record Tool : Type 0 where
  pub program : Text
  pub args : List Text

-- `Ok(true)`, `Ok(false)`, and an error, of which there is only a warning.
pub data Outcome : Type 0 where
  opened nothing_to_do failed : Outcome

pub record Opening : Type 0 where
  pub ran : List Tool
  pub outcome : Outcome

unfoldable pub state_query : Tool
state_query = record { program = codes "firewall-cmd"; args = codes "--state" ∷ [] }

unfoldable pub add_port : ℕ → Tool
add_port port = record {
  program = codes "firewall-cmd";
  args = (codes "--add-port=" ++ (decimal port ++ codes "/udp")) ∷ [];
}

abbrev pub netsh : List Text → Tool
netsh args = record {
  program = codes "netsh";
  args = codes "advfirewall" ∷ codes "firewall" ∷ args;
}

abbrev pub name_arg : ℕ → Text
name_arg port = codes "name=weverywhere (UDP " ++ (decimal port ++ codes " in)")

unfoldable pub delete_rule : ℕ → Tool
delete_rule port = netsh (codes "delete" ∷ codes "rule" ∷ name_arg port ∷ [])

unfoldable pub add_rule : ℕ → Tool
add_rule port = netsh (
    codes "add"
    ∷ codes "rule"
    ∷ name_arg port
    ∷ codes "dir=in"
    ∷ codes "action=allow"
    ∷ codes "protocol=UDP"
    ∷ (codes "localport=" ++ decimal port)
    ∷ codes "profile=any"
    ∷ [])

-- `status` is the exit of a tool, whether it is a success; `none` if it cannot be spawned.
module _ (status : Tool → Option Bool) where
  abbrev pub outcome_of : Option Bool → Outcome
  outcome_of (some true) = opened
  outcome_of (some false) = failed
  outcome_of none = failed

  abbrev pub if_running : ℕ → Option Bool → Opening
  if_running port (some true) = record {
    ran = state_query ∷ add_port port ∷ [];
    outcome = outcome_of (status (add_port port));
  }
  if_running port _ = record { ran = state_query ∷ []; outcome = nothing_to_do }

  unfoldable pub ensure_inbound_udp_allowed : Platform → ℕ → Opening
  unfolding state_query
  ensure_inbound_udp_allowed linux port = if_running port (status state_query)
  ensure_inbound_udp_allowed windows port = record {
    ran = delete_rule port ∷ add_rule port ∷ [];
    outcome = outcome_of (status (add_rule port));
  }
  ensure_inbound_udp_allowed macos port = record { ran = []; outcome = nothing_to_do }
  ensure_inbound_udp_allowed other port = record { ran = []; outcome = nothing_to_do }

  -- Where firewalld does not run, nothing is changed.
  pub ensure_inbound_udp_allowed-idle :
      (port : ℕ)
      → status state_query ≡ some false
      → (ensure_inbound_udp_allowed linux port).ran ≡ state_query ∷ []
  unfolding ensure_inbound_udp_allowed
  ensure_inbound_udp_allowed-idle port h = rw h refl
