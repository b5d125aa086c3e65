-- ===== src/Adapter.antt =====
-- pkg/aiven/adapter: the two clients behind the interface of the ACL API.
pub mod AivenGoClient
pub mod GoClientCodegen
pub mod FoundAcl
pub mod StoreLaws
pub mod HandlerLaws
pub mod HandlerTests
pub mod Tests
