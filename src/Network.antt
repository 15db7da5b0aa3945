-- ===== src/Network.antt =====
-- internal/diagnostics/network_paths.go: the observations of the checks become one graph of paths,
-- hops and attempts, and the results get references.
mod Graph
mod Numbers
mod Attempts
mod Correlate
pub mod Described
pub mod Merging
mod Kinds
pub mod Covering
pub mod Recorded
pub mod Origin
pub mod Results
mod Examples
unfoldable pub use Graph.*
unfoldable pub use Numbers.*
unfoldable pub use Attempts.*
unfoldable pub use Correlate.*
