-- ===== src/Config.antt =====
-- src/config.rs: configured peers, signed identities, and the merging of configuration files.
pub mod Peer
pub mod PeerLaws
pub mod TomlString
pub mod Identity
pub mod Signing
pub mod Shifting
pub mod Merge
pub mod MergeLaws
mod Tests
