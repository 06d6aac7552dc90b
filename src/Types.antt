-- ===== src/Types.antt =====
-- The crate types/: blocks, certified blocks and the genesis file.
pub mod Digest
pub mod Reading
pub mod Primitives
pub mod Block
pub mod Certified
pub mod Genesis
pub mod Sample
