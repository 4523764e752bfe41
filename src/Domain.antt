-- ===== src/Domain.antt =====
-- internal/domain: the data that the components exchange.
mod Errors
mod File
mod Sync
mod Rule
pub use Errors.*
unfoldable pub use File.*
unfoldable pub use Sync.*
unfoldable pub use Rule.*
