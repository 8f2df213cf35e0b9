-- ===== src/Tty/Session.antt =====
-- `attach` and `TtyGuard` of src/tty.rs: the terminal of an interactive program.
use weverywhere.Prelude.{
  ◌≡◌, ◌⊎◌, Bool, true, false, List, [], ◌∷◌, ◌++◌, arith, if◌then◌else◌, All,
}

-- The commands that are queued on the standard output; `drawing` is any of those that a program draws
-- with.
pub data Command : Type 0 where
  enter_alternate leave_alternate hide_cursor show_cursor drawing : Command

-- The terminal, and what is queued and not yet flushed.
pub record Screen : Type 0 where
  pub raw : Bool
  pub alternate : Bool
  pub cursor_hidden : Bool
  pub queued : List Command

-- Which calls succeed: a change of the mode, the queueing of a command, and a flush.
pub record Accepts : Type 0 where
  pub mode : Bool
  pub queues : Command → Bool
  pub flushes : Bool

abbrev shown : Screen → Command → Screen
shown s enter_alternate = record s { alternate = true }
shown s leave_alternate = record s { alternate = false }
shown s hide_cursor = record s { cursor_hidden = true }
shown s show_cursor = record s { cursor_hidden = false }
shown s drawing = s

abbrev all_shown : Screen → List Command → Screen
all_shown s [] = s
all_shown s (c ∷ cs) = all_shown (shown s c) cs

module _ (accepts : Accepts) where
  -- Each call leaves the screen and tells whether it succeeded.
  abbrev set_raw : Bool → Screen → Screen × Bool
  set_raw b s = if accepts.mode then (record s { raw = b }, true) else (s, false)

  abbrev queue : Command → Screen → Screen × Bool
  queue c s =
      if accepts.queues c then (record s { queued = s.queued ++ c ∷ [] }, true) else (s, false)

  abbrev flush : Screen → Screen × Bool
  flush s =
      if accepts.flushes then (record (all_shown s s.queued) { queued = [] }, true) else (s, false)

  -- `f()?; rest`
  abbrev then_try : Screen × Bool → (Screen → Screen × Bool) → Screen × Bool
  then_try (s, true) f = f s
  then_try (s, false) f = (s, false)

  -- The terminal that `attach` leaves, and whether it succeeded.
  unfoldable pub attach : Screen → Screen × Bool
  attach s =
      then_try (set_raw true s)
        λ s. then_try (queue enter_alternate s) λ s. then_try (queue hide_cursor s) λ s. flush s

  -- The drop of the guard goes on after a failure.
  unfoldable pub drop_guard : Screen → Screen
  drop_guard s = (set_raw false (flush (queue leave_alternate (queue show_cursor s).0).0).0).0

-- A terminal in which nothing is queued.
abbrev pub IsIdle : Screen → Type 0
IsIdle s = s.queued ≡ []

-- A terminal out of raw mode, on its main screen, with a visible cursor and nothing queued.
abbrev pub plain : Screen
plain = record { raw = false; alternate = false; cursor_hidden = false; queued = [] }

-- What the program does with the attached terminal: it queues drawings and flushes.
pub data Action : Type 0 where
  draws presents : Action

abbrev pub act : Accepts → Action → Screen → Screen
act a draws s = (queue a drawing s).0
act a presents s = (flush a s).0

-- A session, with what the terminal accepts at each action.
abbrev pub session : List (Accepts × Action) → Screen → Screen
session [] s = s
session ((a, x) ∷ xs) s = session xs (act a x s)

-- The terminal of a program: only drawings are queued.
record IsAttached (s : Screen) : Type 0 where
  raw_mode : s.raw ≡ true
  on_alternate : s.alternate ≡ true
  hidden : s.cursor_hidden ≡ true
  only_drawings : All (λ c. c ≡ drawing) s.queued

-- The guard's own refusals, or the terminal that it leaves.
abbrev pub Restored : Accepts → Screen → Type 0
Restored b s =
    (b.queues show_cursor ≡ false)
    ⊎ (b.queues leave_alternate ≡ false)
    ⊎ (b.flushes ≡ false)
    ⊎ (s ≡ plain)

-- If the terminal takes raw mode and then refuses a command, raw mode stays on.
pub attach-leaves_raw :
    (a : Accepts) (s : Screen) → a.mode ≡ true → (attach a s).1 ≡ false → (attach a s).0.raw ≡ true
unfolding attach
attach-leaves_raw a s mode failed = ground arith
