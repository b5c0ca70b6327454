-- ===== src/Rules/Whole.antt =====
-- Whole runs of the instructions that change a document, over the store
-- (program/src/instructions/).
pub mod Chunks
pub mod Methods
pub mod Services
pub mod Replacements
pub mod Flags
pub mod Tombstones
pub mod Lists
pub mod ControllerSets
pub mod Entry
pub mod Staged
pub mod FromBuffer
pub mod Creation
pub mod Values
