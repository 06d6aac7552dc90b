-- ===== src/Application.antt =====
-- The crate application/.
pub mod Notifier
pub mod Finalizer
pub mod Verify
pub mod Proposal
pub mod Actor
pub mod Supervisor
pub mod EngineClient
pub mod Opening
