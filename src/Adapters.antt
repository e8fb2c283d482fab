-- ===== src/Adapters.antt =====
-- The outbound and inbound adapters of src/processor/adapters.
pub mod Retry
pub mod Metadata
pub mod Outbox
pub mod Crypto
pub mod Storage
pub mod Queue
pub mod Lambda
