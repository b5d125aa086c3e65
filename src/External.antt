-- ===== src/External.antt =====
-- The types of libraries that the program uses, with the fields that it reads or writes, and the
-- library functions that it calls, as parameters.
mod Kafka
mod Resources
pub use Kafka.*
pub use Resources.*
