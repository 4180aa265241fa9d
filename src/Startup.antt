-- ===== src/Startup.antt =====
-- cmd/crawler/main.go: what a production run does before its workers start.
pub mod Bloom
pub mod Guards
pub mod Isolation
