-- ===== src/Syncer.antt =====
-- The crate syncer/.
pub mod Key
pub mod Archive
pub mod Environment
pub mod Messages
pub mod State
pub mod Consensus
pub mod Orchestrate
pub mod Resolve
pub mod Actor
pub mod Coherence
pub mod Persistence
pub mod Requests
pub mod Service
pub mod Faults
pub mod Liveness
pub mod Registry
pub mod Scenario
pub mod Coordinator
pub mod Opening
pub mod Agreement
