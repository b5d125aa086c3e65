-- ===== src/Acl.antt =====
-- pkg/aiven/acl: the ACL entries of one topic or stream, and their synchronization with Aiven.
pub mod Model
pub mod Manager
pub mod Sets
pub mod Ids
pub mod Store
pub mod Phases
pub mod Outcome
pub mod Converge
pub mod Safety
pub mod DryRun
pub mod Untouched
pub mod Example
pub mod Success
mod Tests
mod Fresh
mod SuccessTests
unfoldable pub use Model.*
unfoldable pub use Manager.*
