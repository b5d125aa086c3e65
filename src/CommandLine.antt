-- ===== src/CommandLine.antt =====
-- cmd/kafkarator/main.go and feature_flags.go: how the program is put together.
pub mod Start
pub mod Main
pub mod Wiring
mod Tests
