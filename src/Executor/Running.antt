-- ===== src/Executor/Running.antt =====
-- The life of a program in the executor of src/executor/mod.rs: the end of `create_pid`, the task it
-- spawns, and `wait_for_pid_exit`, as steps that interleave.
pub mod Order
use weverywhere.Prelude.{
  ℕ, suc, ◌+◌, ◌%◌, ◌^◌, ◌<◌, ◌≡◌, ◌≢◌, ◌∙◌, ◌⊎◌, inl, inr, ap, sym, refl, Bool-cases, Bool, true,
  false, Option, none, some, arith, ◌==◌, ==_iff, if◌then◌else◌,
}

-- `tasks` are the spawned runners that have not ended, `starting` the calls of `create_pid` between
-- the spawn and the insertion, `spawn_error` the programs whose error waits to be taken.
pub record Running : Type 0 where
  pub next_pid : ℕ
  pub tasks : ℕ → Bool
  pub starting : ℕ → Bool
  pub spawn_error : ℕ → Bool
  pub running_programs : ℕ → Bool
  pub pid_last_exit_code : ℕ → Option ℕ

unfoldable pub set {ℓ} : {A : Type ℓ} → (ℕ → A) → ℕ → A → ℕ → A
set f k a j = if j == k then a else f j

-- `tokio::spawn` of the runner, under the next pid. The counter is a u64 and wraps.
unfoldable pub spawned : Running → Running
unfolding set
spawned s = record s {
  next_pid = (s.next_pid + 1) % 2 ^ 64;
  tasks = set s.tasks s.next_pid true;
  starting = set s.starting s.next_pid true;
  spawn_error = set s.spawn_error s.next_pid false;
}

-- `running_programs.insert`, and the return of the pid.
unfoldable pub inserted : Running → ℕ → Running
unfolding set
inserted s pid = record s {
  starting = set s.starting pid false;
  running_programs = set s.running_programs pid true;
}

-- A runner that failed sets the error of its program, before anything else.
unfoldable pub failed : Running → ℕ → Running
unfolding set
failed s pid = record s { spawn_error = set s.spawn_error pid true }

-- The end of the runner: 0 for a program that returned, 1 for any error.
unfoldable pub finished : Running → ℕ → ℕ → Running
unfolding set
finished s pid code = record s {
  tasks = set s.tasks pid false;
  running_programs = set s.running_programs pid false;
  pid_last_exit_code = set s.pid_last_exit_code pid (some code);
}

-- A waiting caller takes the error of a listed program.
unfoldable pub taken : Running → ℕ → Running
unfolding set
taken s pid = record s { spawn_error = set s.spawn_error pid false }

-- The steps beside a spawn.
pub data Step : Running → Running → Type 0 where
  list_program : {s : Running} (pid : ℕ) → s.starting pid ≡ true → Step s (inserted s pid)
  fail_task : {s : Running} (pid : ℕ) → s.tasks pid ≡ true → Step s (failed s pid)
  end_task : {s : Running} (pid code : ℕ) → s.tasks pid ≡ true → Step s (finished s pid code)
  take_error : {s : Running} (pid : ℕ) → s.running_programs pid ≡ true → Step s (taken s pid)

-- Any steps, with so many spawns among them.
pub data Steps : ℕ → Running → Running → Type 0 where
  done : {s : Running} → Steps 0 s s
  spawn_task : {n : ℕ} {s t : Running} → Steps n (spawned s) t → Steps (suc n) s t
  more : {n : ℕ} {s t u : Running} → Step s t → Steps n t u → Steps n s u

-- What one look of `wait_for_pid_exit` finds.
pub data Waited : Type 0 where
  exited : ℕ → Waited
  spawn_failed waiting : Waited

abbrev code_or_zero : Option ℕ → ℕ
code_or_zero none = 0
code_or_zero (some c) = c

-- One turn of the loop of `wait_for_pid_exit`: the exit code, 0 where none is known; the error of the
-- program; or the wait for the next exit.
unfoldable pub wait_for_pid_exit : Running → ℕ → Waited
wait_for_pid_exit s pid =
    if s.running_programs pid
    then if s.spawn_error pid then spawn_failed else waiting
    else exited (code_or_zero (s.pid_last_exit_code pid))
