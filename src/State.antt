-- ===== src/State.antt =====
-- The byte-level view of the accounts (program/src/state.rs), one child for each part of that file.
pub mod Consts
pub mod Sections
pub mod View
pub mod Checks
pub mod Edits
pub mod KeyBuffer
pub mod Deprecated
