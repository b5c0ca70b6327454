-- ===== src/Instructions.antt =====
-- The instruction handlers (program/src/instructions/), one child for each.
pub mod Shared
pub mod Args
pub mod Deprecated
pub mod AddVerificationMethod
pub mod RemoveVerificationMethod
pub mod SetVerificationMethodFlags
pub mod AddService
pub mod UpdateService
pub mod RemoveService
pub mod Deactivate
pub mod SetControllers
pub mod Create
pub mod Initialize
pub mod InitializeOwned
pub mod CreateKeyBuffer
pub mod WriteKeyBuffer
pub mod CloseKeyBuffer
pub mod AddVerificationMethodFromBuffer
