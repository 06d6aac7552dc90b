-- ===== src/Node.antt =====
-- node/: how a node is put together from its flags, its files and the genesis file.
pub mod Paths
pub mod Host
pub mod Sample
pub mod Keys
pub mod Committee
pub mod Config
pub mod Startup
pub mod Scenario
pub mod Engine
pub mod Storage
pub mod Launch
pub mod Testnet
pub mod Dkg
pub mod Hooks
pub mod Descriptions
pub mod Metrics
