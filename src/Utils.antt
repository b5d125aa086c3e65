-- ===== src/Utils.antt =====
-- pkg/utils
pub mod CredStrip
pub mod Redaction
pub mod Tls
mod Tests
