-- ===== src/Collectors.antt =====
-- pkg/metrics/collectors: what the gauges of kafkarator are set to.
pub mod Tally
pub mod Ticker
pub mod Gauges
pub mod Topics
pub mod Acls
pub mod Metadata
pub mod Counts
pub mod TopicCounts
mod Tests
pub mod Robust
