-- ===== src/Control.antt =====
-- internal/control: the durable stores and the bootstrap handoff.
pub mod Bytes
pub mod Store
pub mod Names
pub mod Handoff
