-- ===== src/Tests.antt =====
-- The properties at concrete inputs, and runs of the model that can be followed in the source.
mod Journals
mod Machines
mod Cancellations
mod Contracts
mod Definitions
mod Names
mod Boundaries
mod Handoffs
mod Stores
