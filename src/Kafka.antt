-- ===== src/Kafka.antt =====
-- pkg/kafka: the producer with transactions, the consumer, and which errors mean that the credentials are
-- invalid.
pub mod Errors
pub mod Producer
pub mod Tls
pub mod Consumer
pub mod Group
pub mod Marking
pub mod Transactions
pub mod Commit
pub mod Atomic
pub mod Whole
mod Tests
