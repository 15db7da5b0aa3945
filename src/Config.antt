-- ===== src/Config.antt =====
-- internal/application/configuration.go and internal/config/config.go: the settings, what is
-- accepted of them, and how they are loaded and saved.
mod Settings
mod Files
pub mod Accepted
pub mod Saved
mod Examples
unfoldable pub use Settings.*
unfoldable pub use Files.*
