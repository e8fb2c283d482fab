-- ===== src/Publisher.antt =====
-- src/processor/outbox_publisher.py, the Lambda that publishes the outbox.
pub mod Settings
pub mod Rows
pub mod Worker
pub mod Machine
pub mod Refinement
pub mod Advance
pub mod Delivery
pub mod Recovery
