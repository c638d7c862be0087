-- ===== src/Process.antt =====
-- process_service: it consumes tasks from a Redis stream, calls an external API for each, and keeps
-- what cannot be decoded in a dead letter queue.
pub mod Domain
pub mod Tasks
pub mod Dlq
pub mod Bus
pub mod ExtApi
pub mod Queue
pub mod Daemon
pub mod Config
pub mod Main
