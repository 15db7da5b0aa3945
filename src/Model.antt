-- ===== src/Model.antt =====
-- internal/diagnostics/model/model.go: the vocabulary that the checks, the engine and the runner
-- share. A Go string type with a fixed vocabulary is a data type with one more constructor for
-- every other text; an instant is the number of nanoseconds since Go's zero time, which is 0.
mod Outcomes
mod Records
mod Progress
pub mod Complete
unfoldable pub use Outcomes.*
unfoldable pub use Records.*
unfoldable pub use Progress.*
