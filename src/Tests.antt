-- ===== src/Tests.antt =====
-- Runs of the models, and the theorems at concrete data.
pub mod Memory
pub mod Samples
pub mod Service
pub mod Store
pub mod Outbox
pub mod Publisher
pub mod Crypto
pub mod Storage
pub mod Deployment
pub mod Queue
pub mod Consumer
pub mod Wiring
pub mod Domain
