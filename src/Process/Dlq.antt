-- ===== src/Process/Dlq.antt =====
-- process_service/internal/dlq/minio.go: payloads that cannot be decoded, kept in a bucket.
mod Names
mod Store
pub mod Slashes
pub mod Put
pub mod Settings
pub use Names.*
unfoldable pub use Names.{sanitize_object_name, object_name}
pub use Store.*
unfoldable pub use Store.{new_min_io, send_to, send_invalid_payload}
