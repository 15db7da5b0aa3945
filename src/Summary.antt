-- ===== src/Summary.antt =====
-- internal/diagnostics/summary/summary.go: the results of a diagnosis become one cautious conclusion.
mod Searches
mod Facts
mod Candidate
mod Transport
mod Http
mod Layers
mod Attention
mod Build
pub mod Sound
mod SoundLayers
mod SoundHttp
mod Soundness
pub mod Blocked
pub mod Choice
pub mod Verdict
pub mod Status
pub mod References
mod Examples
unfoldable pub use Searches.*
unfoldable pub use Facts.*
unfoldable pub use Candidate.*
unfoldable pub use Transport.*
unfoldable pub use Http.*
unfoldable pub use Layers.*
unfoldable pub use Attention.*
unfoldable pub use Build.*
