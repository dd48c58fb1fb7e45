-- ===== src/Types.antt =====
-- src/types.rs and the standard library's addresses: the values shared by every layer.
pub mod Mac
pub mod Net
pub mod Evidence
pub mod Trimmed
pub mod Event
pub mod Observed
unfoldable pub use Mac.*
unfoldable pub use Net.*
unfoldable pub use Evidence.*
unfoldable pub use Observed.*
mod Tests
