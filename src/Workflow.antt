-- ===== src/Workflow.antt =====
-- The engine of internal/workflow.
pub mod Patterns
pub mod Machine
pub mod Route
pub mod Cancellation
pub mod Retry
pub mod Definition
pub mod Journal
