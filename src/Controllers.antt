-- ===== src/Controllers.antt =====
-- controllers: the reconcilers of the resources `Topic` and `Stream`.
pub mod Common
pub mod TopicProcess
pub mod TopicReconcile
pub mod TopicDryRun
pub mod TopicFinalize
pub mod TopicCaller
pub mod TopicRelease
pub mod Failures
pub mod StreamProcess
pub mod StreamReconcile
pub mod TopicNames
pub mod StreamDelete
pub mod StreamAcls
pub mod Tests
mod ReleaseTests
mod StreamTests
mod StreamAclTests
unfoldable pub use Common.*
