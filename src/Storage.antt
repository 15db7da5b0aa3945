-- ===== src/Storage.antt =====
-- internal/storage: how a database is opened and brought up to date. The database itself is outside.
mod Schema
mod Migrate
mod Open
pub mod Atomic
pub mod Guarded
mod Examples
unfoldable pub use Schema.*
unfoldable pub use Migrate.*
unfoldable pub use Open.*
