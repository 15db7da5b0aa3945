-- ===== src/Taskrunner.antt =====
-- internal/gui/taskrunner/taskrunner.go: operations of a GUI scope and the runner that executes
-- them. A scope is a state that its methods change under its lock; the callbacks that it hands to
-- the dispatcher wait in a list, and may be executed at any later time and in any order.
mod Scope
mod Steps
mod Invariant
pub mod Freshness
pub mod Shown
pub mod Operations
pub mod Queue
mod Examples
unfoldable pub use Scope.*
pub use Steps.*
