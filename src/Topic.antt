-- ===== src/Topic.antt =====
-- pkg/aiven/topic/topic.go: the configuration of one topic, and its synchronization with Aiven.
pub mod Fields
pub mod Changed
pub mod Manager
pub mod Hours
pub mod Agrees
pub mod Effects
pub mod Applied
pub mod Settles
pub mod Creation
pub mod Twice
pub mod Total
pub mod Example
mod Tests
mod CreationTests
unfoldable pub use Fields.*
unfoldable pub use Changed.*
unfoldable pub use Manager.*
