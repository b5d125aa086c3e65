-- ===== src/Canary.antt =====
-- cmd/canary/main.go and pkg/canary: a program that produces to Kafka and consumes what it has produced.
pub mod Certificates
pub mod Model
pub mod Produce
pub mod Loop
pub mod Samples
pub mod Broker
pub mod Batches
pub mod Steps
pub mod Transactions
pub mod Quiet
pub mod Queues
pub mod Channels
pub mod Startup
pub mod Main
pub mod Prepared
pub mod Ticks
pub mod Renewal
mod Tests
mod TickTests
