-- ===== src/Submit.antt =====
-- submit_service: it takes tasks by HTTP, stores them in ClickHouse and puts them on a Redis
-- stream.
pub mod Metrics
pub mod Repository
pub mod Domain
pub mod Tasks
pub mod Bus
pub mod WebApi
pub mod Daemon
pub mod Config
pub mod Wiring
pub mod Main
pub mod Unused
