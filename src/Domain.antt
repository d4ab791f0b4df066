-- ===== src/Domain.antt =====
-- The types of internal/domain and their own rules.
pub mod Approval
pub mod Contract
pub mod Enum
pub mod Operation
pub mod Identity
pub mod Environment
pub mod Exposure
pub mod Retry
pub mod Outcome
pub mod Time
pub mod Journal
pub mod Codec
