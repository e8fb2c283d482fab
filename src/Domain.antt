-- ===== src/Domain.antt =====
-- The domain: exceptions, events and models.
pub mod Errors
pub mod Events
pub mod Validation
pub mod Attributes
pub mod Models
pub mod Wire
