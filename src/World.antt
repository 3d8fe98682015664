-- ===== src/World.antt =====
-- What the engine's functions share: the values that it reads and writes as JSON and YAML, the
-- files and thread-local variables that they change, and the platform that they call.
mod Defs
mod Effects
pub mod Json
pub mod Returned
pub mod Results
pub use Defs.*
unfoldable pub use Effects.*
