-- ===== src/Daemon/Laws.antt =====
-- What src/command/daemon.rs has done when an action succeeds, and the command line that systemd reads.
use weverywhere.Prelude.{
  ℕ, ◌≡◌, ◌≢◌, refl, ap, ◌∙◌, ◌⊎◌, inl, inr, Bool, true, false, List, [], ◌∷◌, ◌++◌, map, Text,
  arith, All, Option-cases, append_assoc, if◌then◌else◌, ◌==◌,
}
use weverywhere.Args.Command.{DaemonAction}
use weverywhere.Daemon.{
  Step, Mode, must, best_effort, Done, go_on, perform, Installed, Platform, linux, macos, windows,
  other, plan, backend, serve_args, join_spaces, exec_start,
}

-- A step that had to work did.
abbrev pub Worked : (Step → Bool) → Mode × Step → Type 0
Worked works (m, s) = (m ≡ best_effort) ⊎ (works s ≡ true)

abbrev pub step_of : Mode × Step → Step
step_of (m, s) = s

go_on-ok :
    (w : Bool) (m : Mode) (s : Step) (d : Done)
    → (go_on w m s d).is_ok ≡ true
    → (d.is_ok ≡ true) × ((go_on w m s d).tried ≡ s ∷ d.tried) × ((m ≡ best_effort) ⊎ (w ≡ true))
go_on-ok true m s d h = (h, refl, inr refl)
go_on-ok false best_effort s d h = (h, refl, inl refl)
go_on-ok false must s d h = cc h

perform-ok :
    (works : Step → Bool) (steps : List (Mode × Step))
    → (perform works steps).is_ok ≡ true
    → ((perform works steps).tried ≡ map step_of steps) × All (Worked works) steps
unfolding perform
perform-ok works [] h = (refl, tt)
perform-ok works ((m, s) ∷ rest) h =
    let (rest_ok, tried, worked) = go_on-ok (works s) m s (perform works rest) h in
    let (order, all) = perform-ok works rest rest_ok in (tried ∙ ap (◌∷◌ s) order, (worked, all))

-- An action that succeeds has run all of its steps in their order, and each that was not tried at best
-- effort has worked. On a platform without a backend no action succeeds.
pub backend-ok :
    (works : Step → Bool) (p : Platform) (i : Installed) (action : DaemonAction)
    → (backend works p i action).is_ok ≡ true
    → (p ≢ other)
      × ((backend works p i action).tried ≡ map step_of (plan p i action))
      × All (Worked works) (plan p i action)
unfolding backend
backend-ok works linux i action h =
    let (order, all) = perform-ok works (plan linux i action) h in ((λ e. cc e), order, all)
backend-ok works macos i action h =
    let (order, all) = perform-ok works (plan macos i action) h in ((λ e. cc e), order, all)
backend-ok works windows i action h =
    let (order, all) = perform-ok works (plan windows i action) h in ((λ e. cc e), order, all)
backend-ok works other i action h = cc h

-- How systemd takes an unquoted command line apart: at spaces.
abbrev pub onto_word : ℕ → List Text → List Text
onto_word c [] = (c ∷ []) ∷ []
onto_word c (w ∷ ws) = (c ∷ w) ∷ ws

unfoldable pub words : Text → List Text
words [] = [] ∷ []
words (c ∷ s) = let rest = words s in if c == 32 then [] ∷ rest else onto_word c rest

abbrev pub NoSpace : Text → Type 0
NoSpace = All λ c. (c == 32) ≡ false

words-word : (s rest : Text) → NoSpace s → words (s ++ (32 ∷ rest)) ≡ s ∷ words rest
unfolding words
words-word [] rest h = refl
words-word (c ∷ s) rest h = rw h.0 (ap (onto_word c) (words-word s rest h.1))

words-last : (s : Text) → NoSpace s → words s ≡ s ∷ []
unfolding words
words-last [] h = refl
words-last (c ∷ s) h = rw h.0 (ap (onto_word c) (words-last s h.1))

words-join_spaces :
    (s : Text) (ss : List Text) → All NoSpace (s ∷ ss) → words (join_spaces (s ∷ ss)) ≡ s ∷ ss
unfolding join_spaces
words-join_spaces s [] h = words-last s h.0
words-join_spaces s (t ∷ ss) h =
    words-word s (join_spaces (t ∷ ss)) h.0 ∙ ap (◌∷◌ s) (words-join_spaces t ss h.1)

words-join_some : (ss : List Text) → All NoSpace ss → ss ≢ [] → words (join_spaces ss) ≡ ss
words-join_some [] h some_word = absurd (some_word refl)
words-join_some (s ∷ ss) h some_word = words-join_spaces s ss h

serve_args-some : (i : Installed) → serve_args i ≢ []
unfolding serve_args
serve_args-some i = elim (Option-cases i.config) [
  | inl e ↦ ground arith
  | inr (c, e) ↦ ground arith
]

-- If no path holds a space, the words of the service's command line are the program and its
-- arguments.
pub words-exec_start :
    (i : Installed)
    → NoSpace i.exe
    → All NoSpace (serve_args i)
    → words (exec_start i) ≡ i.exe ∷ serve_args i
unfolding exec_start
words-exec_start i exe args =
    words-word i.exe (join_spaces (serve_args i)) exe
    ∙ ap (◌∷◌ i.exe) (words-join_some (serve_args i) args (serve_args-some i))

-- A program whose path holds a space is cut at it: the service's first word is not the program.
pub words-exec_start_space :
    (i : Installed) (before after : Text)
    → NoSpace before
    → i.exe ≡ before ++ (32 ∷ after)
    → (rest : List Text) × (words (exec_start i) ≡ before ∷ rest)
unfolding exec_start
words-exec_start_space i before after no_space e = (
  _,
  ap (λ x. words (x ++ (32 ∷ join_spaces (serve_args i)))) e
      ∙ ap words (append_assoc before (32 ∷ after) (32 ∷ join_spaces (serve_args i)))
      ∙ words-word before _ no_space,
)
