-- ===== src/Processor.antt =====
-- src/processor/application/file_processor.py: `FileProcessorService` over its ports.
pub mod Ports
pub mod Checks
pub mod Failure
pub mod Service
pub mod Wiring
