-- ===== src/Executor.antt =====
-- src/executor/mod.rs: programs, their memory and imports, and the executor that runs them.
pub mod Program
pub mod Memory
pub mod Store
pub mod Host
pub mod HostMessages
pub mod Stdio
pub mod State
pub mod Start
pub mod Running
pub mod HostTty
mod HostTtyLaws
mod Drawing
mod TtyTests
pub mod HostLaws
pub mod ReadLaws
mod Tests
