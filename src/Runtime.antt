-- ===== src/Runtime.antt =====
-- What Go, the standard library and the third-party clients look like to the two services: error
-- values, the calls that leave the process, and methods that run in a process.
mod Errors
mod Values
mod Collectors
mod Calls
mod Methods
mod Laws
pub mod Keeps
pub mod Total
pub use Errors.*
unfoldable pub use Errors.{is_error, as_custom, error_text}
pub use Values.*
pub use Collectors.*
pub use Calls.*
pub use Methods.*
pub use Laws.*
