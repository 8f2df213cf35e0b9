-- ===== src/Daemon.antt =====
-- src/command/daemon.rs: the daemon as a service of the operating system. What is done is a list of
-- steps, up to the first that fails.
mod Laws
mod Tests
use weverywhere.Prelude.{
  ℕ, Bool, true, false, List, [], ◌∷◌, ◌++◌, map, Option, none, some, Text, if◌then◌else◌,
}
use weverywhere.Prelude.Utf8.{codes}
use weverywhere.Args.Command.{DaemonAction, install, uninstall, start, stop, restart, status}

-- A step: a file written or removed, or a tool run with its arguments.
pub data Step : Type 0 where
  write_file : Text → Text → Step
  remove_file : Text → Step
  tool : Text → List Text → Step

-- How a step's failure is taken: `?` gives it back, `let _ =` does not.
pub data Mode : Type 0 where
  must best_effort : Mode

-- What was tried, and whether the whole succeeded.
pub record Done : Type 0 where
  pub tried : List Step
  pub is_ok : Bool

abbrev pub and_then : Step → Done → Done
and_then s d = record { tried = s ∷ d.tried; is_ok = d.is_ok }

-- A step that worked or may fail goes on; one that had to work ends the action.
abbrev pub go_on : Bool → Mode → Step → Done → Done
go_on true m s d = and_then s d
go_on false best_effort s d = and_then s d
go_on false must s d = record { tried = s ∷ []; is_ok = false }

-- `works` tells which steps succeed on the host.
unfoldable pub perform : (Step → Bool) → List (Mode × Step) → Done
perform works [] = record { tried = []; is_ok = true }
perform works ((m, s) ∷ rest) = go_on (works s) m s (perform works rest)

-- What the daemon is to run: the program, and the config that stands next to it.
pub record Installed : Type 0 where
  pub exe : Text
  pub config : Option Text

unfoldable pub serve_args : Installed → List Text
serve_args i = elim i.config [
  | some cfg ↦ codes "--config" ∷ cfg ∷ codes "serve" ∷ []
  | none ↦ codes "serve" ∷ []
]

-- `join(" ")`.
unfoldable pub join_spaces : List Text → Text
join_spaces [] = []
join_spaces (s ∷ []) = s
join_spaces (s ∷ t ∷ ss) = s ++ (32 ∷ join_spaces (t ∷ ss))

-- The platforms with a backend, and the others.
pub data Platform : Type 0 where
  linux macos windows other : Platform

abbrev pub service : Text
service = codes "weverywhere"

abbrev pub unit_path : Text
unit_path = codes "/etc/systemd/system/weverywhere.service"

abbrev pub label : Text
label = codes "com.weverywhere.daemon"

abbrev pub plist_path : Text
plist_path = codes "/Library/LaunchDaemons/com.weverywhere.daemon.plist"

unfoldable pub exec_start : Installed → Text
unfolding serve_args join_spaces
exec_start i = i.exe ++ (32 ∷ join_spaces (serve_args i))

unfoldable pub unit : Installed → Text
unfolding exec_start
unit i =
    codes "[Unit]\nDescription=weverywhere WASI fabric daemon\nAfter=network-online.target\n"
    ++ (codes "Wants=network-online.target\n\n[Service]\nType=simple\nExecStart="
        ++ (exec_start i
            ++ codes
                "\nRestart=on-failure\nRestartSec=2\n\n[Install]\nWantedBy=multi-user.target\n"))

unfoldable pub string_elements : List Text → Text
string_elements [] = []
string_elements (s ∷ ss) =
    codes "    <string>" ++ (s ++ (codes "</string>\n" ++ string_elements ss))

unfoldable pub plist : Installed → Text
unfolding serve_args string_elements
plist i =
    codes "<?xml version=\"1.0\" encoding=\"UTF-8\"?>\n"
    ++ (codes "<!DOCTYPE plist PUBLIC \"-//Apple//DTD PLIST 1.0//EN\" "
        ++ (codes "\"http://www.apple.com/DTDs/PropertyList-1.0.dtd\">\n<plist version=\"1.0\">\n"
            ++ (codes "<dict>\n  <key>Label</key><string>"
                ++ (label
                    ++ (codes "</string>\n  <key>ProgramArguments</key>\n  <array>\n"
                        ++ (string_elements (i.exe ∷ serve_args i)
                            ++ (codes "  </array>\n  <key>RunAtLoad</key><true/>\n"
                                ++ (codes "  <key>KeepAlive</key><true/>\n"
                                    ++ (codes "  <key>StandardOutPath</key>"
                                        ++ (codes "<string>/var/log/weverywhere.log</string>\n"
                                            ++ (codes "  <key>StandardErrorPath</key>"
                                                ++ codes
                                                    "<string>/var/log/weverywhere.log</string>\n</dict>\n</plist>\n")))))))))))

abbrev pub run_tool : Text → List Text → Mode × Step
run_tool program args = (must, tool program args)

abbrev pub try_tool : Text → List Text → Mode × Step
try_tool program args = (best_effort, tool program args)

abbrev pub systemctl : List Text → Mode × Step
systemctl = run_tool (codes "systemctl")

abbrev pub launchctl : List Text → Mode × Step
launchctl = run_tool (codes "launchctl")

abbrev pub schtasks : List Text → Mode × Step
schtasks = run_tool (codes "schtasks")

unfoldable pub systemd : Installed → DaemonAction → List (Mode × Step)
unfolding unit
systemd i install =
    (must, write_file unit_path (unit i))
    ∷ systemctl (codes "daemon-reload" ∷ [])
    ∷ systemctl (codes "enable" ∷ codes "--now" ∷ service ∷ [])
    ∷ []
systemd i uninstall =
    try_tool (codes "systemctl") (codes "disable" ∷ codes "--now" ∷ service ∷ [])
    ∷ (best_effort, remove_file unit_path)
    ∷ systemctl (codes "daemon-reload" ∷ [])
    ∷ []
systemd i start = systemctl (codes "start" ∷ service ∷ []) ∷ []
systemd i stop = systemctl (codes "stop" ∷ service ∷ []) ∷ []
systemd i restart = systemctl (codes "restart" ∷ service ∷ []) ∷ []
systemd i status =
    try_tool (codes "systemctl") (codes "status" ∷ codes "--no-pager" ∷ service ∷ []) ∷ []

unfoldable pub launchd : Installed → DaemonAction → List (Mode × Step)
unfolding plist
launchd i install =
    (must, write_file plist_path (plist i))
    ∷ launchctl (codes "load" ∷ codes "-w" ∷ plist_path ∷ [])
    ∷ []
launchd i uninstall =
    try_tool (codes "launchctl") (codes "unload" ∷ codes "-w" ∷ plist_path ∷ [])
    ∷ (best_effort, remove_file plist_path)
    ∷ []
launchd i start = launchctl (codes "start" ∷ label ∷ []) ∷ []
launchd i stop = launchctl (codes "stop" ∷ label ∷ []) ∷ []
launchd i restart =
    try_tool (codes "launchctl") (codes "stop" ∷ label ∷ [])
    ∷ launchctl (codes "start" ∷ label ∷ [])
    ∷ []
launchd i status = try_tool (codes "launchctl") (codes "list" ∷ label ∷ []) ∷ []

-- The scheduled task's command line: the program in quotes.
unfoldable pub task_run : Installed → Text
unfolding serve_args join_spaces
task_run i = 34 ∷ (i.exe ++ (34 ∷ 32 ∷ join_spaces (serve_args i)))

abbrev pub task : Text → List Text → List Text
task verb rest = verb ∷ codes "/tn" ∷ service ∷ rest

unfoldable pub scheduler : Installed → DaemonAction → List (Mode × Step)
unfolding task_run
scheduler i install =
    schtasks (
      task (codes "/create") (
        codes "/tr"
        ∷ task_run i
        ∷ codes "/sc"
        ∷ codes "onstart"
        ∷ codes "/ru"
        ∷ codes "SYSTEM"
        ∷ codes "/rl"
        ∷ codes "HIGHEST"
        ∷ codes "/f"
        ∷ []))
    ∷ try_tool (codes "schtasks") (task (codes "/run") [])
    ∷ []
scheduler i uninstall =
    try_tool (codes "schtasks") (task (codes "/end") [])
    ∷ schtasks (task (codes "/delete") (codes "/f" ∷ []))
    ∷ []
scheduler i start = schtasks (task (codes "/run") []) ∷ []
scheduler i stop = schtasks (task (codes "/end") []) ∷ []
scheduler i restart =
    try_tool (codes "schtasks") (task (codes "/end") []) ∷ schtasks (task (codes "/run") []) ∷ []
scheduler i status =
    try_tool (codes "schtasks")
      (task (codes "/query") (codes "/v" ∷ codes "/fo" ∷ codes "list" ∷ []))
    ∷ []

unfoldable pub plan : Platform → Installed → DaemonAction → List (Mode × Step)
unfolding systemd launchd scheduler
plan linux i action = systemd i action
plan macos i action = launchd i action
plan windows i action = scheduler i action
plan other i action = []

-- `backend`; a platform without one refuses every action.
unfoldable pub backend : (Step → Bool) → Platform → Installed → DaemonAction → Done
unfolding perform plan
backend works other i action = record { tried = []; is_ok = false }
backend works p i action = perform works (plan p i action)
