-- ===== src/Daemon/Tests.antt =====
-- The daemon's service on hosts where everything or one step works, and a path with a space.
use weverywhere.Prelude.{◌≡◌, refl, Bool, true, false, [], ◌∷◌, none}
use weverywhere.Prelude.Utf8.{codes}
use weverywhere.Args.Command.{restart, uninstall}
use weverywhere.Daemon.{Step, tool, Installed, backend, exec_start, macos}
use weverywhere.Daemon.Laws.{words}

abbrev spaced : Installed
spaced = record { exe = codes "/a b"; config = none }

cut_at_space : words (exec_start spaced) ≡ codes "/a" ∷ codes "b" ∷ codes "serve" ∷ []
unfolding words exec_start
cut_at_space = refl

abbrev no_tool_works : Step → Bool
no_tool_works (tool program args) = false
no_tool_works _ = true

-- The service file is removed although the service could not be stopped.
removed_anyway : (backend no_tool_works macos spaced uninstall).is_ok ≡ true
unfolding backend
removed_anyway = refl

not_restarted : (backend no_tool_works macos spaced restart).is_ok ≡ false
unfolding backend
not_restarted = refl
