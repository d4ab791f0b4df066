-- ===== src/Workflow/Journal.antt =====
-- internal/workflow/journal.go: the rules of one entry and of a whole operation history.
pub mod Entry
pub mod Cursor
pub mod Handlers
pub mod Stream
pub mod ObjectName
