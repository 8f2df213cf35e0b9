-- ===== src/Foreign.antt =====
-- What the program takes from other crates: interfaces of operations with the documented laws that
-- the code relies on, and small concrete instances for the tests.
pub mod Crypto
pub mod Cbor
pub mod CborToy
pub mod Toy
pub mod BareToy
pub mod KeysToy
