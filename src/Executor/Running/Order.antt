-- ===== src/Executor/Running/Order.antt =====
-- The waiting callers of src/executor/mod.rs: what they get, however the steps of programs interleave.
use weverywhere.Prelude.{ℕ, ◌+◌, ◌%◌, ◌^◌, ◌<◌, ◌≡◌, ◌⊎◌, true, false, some}
use weverywhere.Executor.Running.{Running}

-- A pid was given out, and `k` more since, so that the counter has not come round to it.
pub record GivenOut (s : Running) (pid k : ℕ) : Type 0 where
  pub is_u64 : pid < 2 ^ 64
  pub counter : s.next_pid ≡ (pid + 1 + k) % 2 ^ 64

-- A program whose runner ended after the insertion.
pub record IsReported (s : Running) (pid code : ℕ) : Type 0 where
  pub no_task : s.tasks pid ≡ false
  pub not_starting : s.starting pid ≡ false
  pub not_listed : s.running_programs pid ≡ false
  pub exit_code : s.pid_last_exit_code pid ≡ some code

-- A program whose runner ended without an error before the insertion.
pub record IsLost (s : Running) (pid : ℕ) : Type 0 where
  pub no_task : s.tasks pid ≡ false
  pub no_error : s.spawn_error pid ≡ false
  pub listed : (s.starting pid ≡ true) ⊎ (s.running_programs pid ≡ true)
