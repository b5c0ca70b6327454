-- ===== src/Tests.antt =====
-- A concrete account, on which the theorems are applied.
pub mod Samples
mod Worlds
mod Layouts
mod Edits
mod Guards
mod Buffers
mod Clients
mod Authority
mod Handlers
mod Rents
mod Births
mod Deprecated
mod Histories
