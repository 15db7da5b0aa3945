-- ===== src/Runner.antt =====
-- internal/diagnostics/runner.go: how a diagnosis splits its plan over three engines, which checks it
-- skips, and how it marks the results of the direct preflight.
mod Plans
mod Policy
mod Limits
mod Diagnose
pub mod Splitting
pub mod Bounds
pub mod Finished
pub mod Concluded
mod Examples
mod Engines
pub mod Results
unfoldable pub use Plans.*
unfoldable pub use Limits.*
unfoldable pub use Policy.*
unfoldable pub use Diagnose.*
