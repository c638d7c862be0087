-- ===== src/Process/Bus.antt =====
-- process_service/internal/bus/redis.go: the consumer of the stream of tasks.
mod Ids
mod Consume
pub mod Candidates
pub mod Settled
pub mod Invalid
pub mod Acks
pub mod Flat
pub mod Producer
pub use Ids.*
unfoldable pub use Ids.{extract_task_uuid}
pub use Consume.*
unfoldable pub use Consume.{
  mark, send_to_dlq, ack_message, handle_invalid_payload, new_consumer, consume_message,
  consume_messages, consume_tasks,
}
