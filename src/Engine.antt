-- ===== src/Engine.antt =====
-- internal/diagnostics/engine/engine.go: execution of a staged plan. The checks, the clock and the
-- context are the environment of the engine; they are read here as a `World` that says, for each
-- position of the plan, what the engine observes there.
mod Defs
mod Run
pub mod RunCheck
pub mod Timeouts
pub mod Order
pub mod Events
pub mod Stage
mod Examples
unfoldable pub use Defs.*
unfoldable pub use Run.*
