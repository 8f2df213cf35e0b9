-- ===== src/Build.antt =====
-- build.rs: the version of a build, and the programs that it embeds.
pub mod Civil
pub mod Eras
pub mod Gregorian
pub mod Version
pub mod Embedding
mod Tests
