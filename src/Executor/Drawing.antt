-- ===== src/Executor/Drawing.antt =====
-- What a program draws by the imports `host::tty_…` of src/executor/mod.rs: it is presented in the
-- order of the calls.
use weverywhere.Prelude.{
  ◌%◌, ◌^◌, ◌≡◌, refl, sym, ap, ◌∙◌, List, [], ◌∷◌, ◌++◌, append_assoc, append-nil, keep, Bool,
  true, Bool-cases, Option, none, some, Bytes, arith, Option-cases, some_inj, inl, inr,
}
use weverywhere.Prelude.Utf8.{from_utf8_lossy}
use weverywhere.Foreign.Cbor.{ℤ, pos}
use weverywhere.Tty.Handle.{
  TtyHandle, Output, Draw, print_text, move_cursor, clear, style, flush, queue, print, move_to,
  clear_all, set_foreground, set_background, set_attribute, ansi_color, attribute,
}
use weverywhere.Executor.Memory.{max0, read_guest_bytes}
use weverywhere.Executor.Store.{Guest}
use weverywhere.Executor.Host.{Ret, reading}
use weverywhere.Executor.HostTty.{
  set_tty, with_tty, done, host_tty_print, host_tty_move, host_tty_clear, host_tty_style,
  host_tty_flush,
}

-- A drawing call of a program, with its arguments.
pub data TtyCall : Type 0 where
  tty_print : (ptr len : ℤ) → TtyCall
  tty_move : (col row : ℤ) → TtyCall
  tty_clear tty_flush : TtyCall
  tty_style : (fg bg attrs : ℤ) → TtyCall

abbrev pub call : Guest → TtyCall → Ret
call g (tty_print ptr len) = host_tty_print g ptr len
call g (tty_move col row) = host_tty_move g col row
call g tty_clear = host_tty_clear g
call g tty_flush = host_tty_flush g
call g (tty_style fg bg attrs) = host_tty_style g fg bg attrs

abbrev pub onward : (Guest → Option Guest) → Ret → Option Guest
onward k none = none
onward k (some (g, n)) = k g

-- The calls in turn; `none` is a trap.
pub calls : Guest → List TtyCall → Option Guest
calls g [] = some g
calls g (c ∷ cs) = onward (λ g'. calls g' cs) (call g c)

abbrev pub one_print : Bytes → Option (List Draw)
one_print b = some (print (from_utf8_lossy b) ∷ [])

-- What a call is to draw, given the memory; `none` for a text out of range.
abbrev pub drawing : Option Bytes → TtyCall → Option (List Draw)
drawing mem (tty_print ptr len) = reading (read_guest_bytes mem ptr len) one_print
drawing mem (tty_move col row) = some (move_to (max0 col % 2 ^ 16) (max0 row % 2 ^ 16) ∷ [])
drawing mem tty_clear = some (clear_all ∷ [])
drawing mem tty_flush = some []
drawing mem (tty_style fg bg attrs) = some (
    set_foreground (ansi_color fg)
    ∷ set_background (ansi_color bg)
    ∷ set_attribute (attribute attrs)
    ∷ [])

abbrev pub joined : Option (List Draw) → Option (List Draw) → Option (List Draw)
joined none rest = none
joined (some ds) none = none
joined (some ds) (some rest) = some (ds ++ rest)

abbrev pub drawings : Option Bytes → List TtyCall → Option (List Draw)
drawings mem [] = some []
drawings mem (c ∷ cs) = joined (drawing mem c) (drawings mem cs)

-- The guest with the terminal's output as given, all else as it was.
abbrev pub with_output : Guest → TtyHandle → Output → Guest
with_output g t o = set_tty g (record t { out = some o })

with_tty-done :
    (g : Guest) (f : TtyHandle → TtyHandle) (t u : TtyHandle)
    → g.store.tty ≡ some t
    → f t ≡ u
    → with_tty g g.store.tty (λ t. done g (f t)) ≡ done g u
with_tty-done g f t u attached e = ap (λ o. with_tty g o λ t. done g (f t)) attached ∙ ap (done g) e

keep-append : (p : Draw → Bool) (xs ys : List Draw) → keep p (xs ++ ys) ≡ keep p xs ++ keep p ys
keep-append p [] ys = refl
keep-append p (x ∷ xs) ys = elim (Bool-cases (p x)) [
  | inl kept ↦ rw kept (ap (◌∷◌ x) (keep-append p xs ys))
  | inr dropped ↦ rw dropped (keep-append p xs ys)
]

queue-queued :
    (t : TtyHandle) (o : Output) (ds : List Draw)
    → t.out ≡ some o
    → queue t ds ≡ record t { out = some (record o { queued = o.queued ++ keep t.takes ds }) }
unfolding queue
queue-queued t o ds unlocked = ground arith

flush-shown :
    (t : TtyHandle) (o : Output)
    → t.out ≡ some o
    → t.flushes ≡ true
    → flush t ≡ record t { out = some (record { shown = o.shown ++ o.queued; queued = [] }) }
unfolding flush
flush-shown t o unlocked works = rw unlocked (rw works refl)

-- A call that queues.
draws :
    (g : Guest) (t : TtyHandle) (o : Output) (ds : List Draw)
    → g.store.tty ≡ some t
    → t.out ≡ some o
    → (o' : Output) × (with_tty g g.store.tty (λ t. done g (queue t ds))
        ≡ some (with_output g t o', pos 0))
      × (o'.shown ++ o'.queued ≡ (o.shown ++ o.queued) ++ keep t.takes ds)
draws g t o ds attached unlocked = (
  record o { queued = o.queued ++ keep t.takes ds },
  with_tty-done g (λ t. queue t ds) t _ attached (queue-queued t o ds unlocked),
  sym (append_assoc o.shown o.queued (keep t.takes ds)),
)

-- A drawing call of a program whose terminal is attached and whose output is not locked up does not
-- trap and returns 0, if flushes succeed. It changes nothing but the output, where it adds its drawing behind all others.
call-draws :
    (g : Guest) (t : TtyHandle) (o : Output) (c : TtyCall) (ds : List Draw)
    → g.store.tty ≡ some t
    → t.out ≡ some o
    → t.flushes ≡ true
    → drawing g.memory c ≡ some ds
    → (o' : Output) × (call g c ≡ some (with_output g t o', pos 0))
      × (o'.shown ++ o'.queued ≡ (o.shown ++ o.queued) ++ keep t.takes ds)
unfolding host_tty_print host_tty_move host_tty_clear host_tty_style host_tty_flush print_text
    move_cursor clear style
call-draws g t o (tty_print ptr len) ds attached unlocked works h =
    elim (Option-cases (read_guest_bytes g.memory ptr len)) [
      | inl e ↦ cc (sym (ap (λ r. reading r one_print) e) ∙ h)
      | inr (b, e) ↦
          let drawn : print (from_utf8_lossy b) ∷ [] ≡ ds =
            some_inj (sym (ap (λ r. reading r one_print) e) ∙ h) in
          let (o', step, whole) = draws g t o (print (from_utf8_lossy b) ∷ []) attached unlocked in
          (
            o',
            ap
                  (λ r.
                    reading r
                      λ b. with_tty g g.store.tty λ t. done g (print_text t (from_utf8_lossy b)))
                  e
                ∙ step,
            rw (← drawn) whole,
          )
    ]
call-draws g t o tty_flush ds attached unlocked works h = (
  record { shown = o.shown ++ o.queued; queued = [] },
  with_tty-done g flush t _ attached (flush-shown t o unlocked works),
  rw (← some_inj h, append-nil) refl,
)
call-draws g t o (tty_move col row) ds attached unlocked works h =
    rw (← some_inj h) (draws g t o _ attached unlocked)
call-draws g t o tty_clear ds attached unlocked works h =
    rw (← some_inj h) (draws g t o _ attached unlocked)
call-draws g t o (tty_style fg bg attrs) ds attached unlocked works h =
    rw (← some_inj h) (draws g t o _ attached unlocked)

-- Whatever drawing calls a program makes, texts in range of its memory, on an attached terminal whose
-- lock is not poisoned and whose flushes succeed: none traps, and after a last flush everything they
-- draw stands presented, but for the commands that the terminal refused, in the order of the calls
-- and behind what was drawn before. Memory, arguments and the waiting events are as before.
pub calls-presented :
    (cs : List TtyCall) (g : Guest) (t : TtyHandle) (o : Output) (ds : List Draw)
    → g.store.tty ≡ some t
    → t.out ≡ some o
    → t.flushes ≡ true
    → drawings g.memory cs ≡ some ds
    → calls g (cs ++ tty_flush ∷ [])
      ≡ some (
          with_output g t
            (record { shown = (o.shown ++ o.queued) ++ keep t.takes ds; queued = [] }))
unfolding calls host_tty_flush
calls-presented [] g t o ds attached unlocked works h =
    ap (onward some) (with_tty-done g flush t _ attached (flush-shown t o unlocked works))
    ∙ rw (← some_inj h, append-nil) refl
calls-presented (c ∷ cs) g t o ds attached unlocked works h =
    elim (Option-cases (drawing g.memory c)) [
      | inl e ↦ cc (sym (ap (λ d. joined d (drawings g.memory cs)) e) ∙ h)
      | inr (first, e) ↦ elim (Option-cases (drawings g.memory cs)) [
        | inl f ↦
            cc (sym (ap (λ d. joined d (drawings g.memory cs)) e ∙ ap (joined (some first)) f) ∙ h)
        | inr (rest, f) ↦
            let (o', step, whole) = call-draws g t o c first attached unlocked works e in
            let all : first ++ rest ≡ ds = some_inj (
              sym (ap (λ d. joined d (drawings g.memory cs)) e ∙ ap (joined (some first)) f) ∙ h) in
            ap (onward λ g'. calls g' (cs ++ tty_flush ∷ [])) step
            ∙ calls-presented cs (with_output g t o') (record t { out = some o' }) o' rest refl refl
                works f
            ∙ rw (whole, ← all, keep-append t.takes first rest, append_assoc) refl
      ]
    ]
