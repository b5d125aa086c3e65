-- ===== src/Go.antt =====
-- What the program uses of Go: errors, calls that may fail or panic, and effects on the world.
mod Errors
mod Effects
pub mod Duration
pub mod Worlds
pub mod Posts
pub mod Success
unfoldable pub use Errors.*
unfoldable pub use Effects.*
