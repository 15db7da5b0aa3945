-- ===== src/Delivery.antt =====
-- internal/diagnostics/event_delivery.go: the bounded queue between a diagnosis and the consumer of
-- its events. The dispatcher is a state that the emitters, its one worker and `close` change, each
-- under the dispatcher's lock or by one channel operation.
mod Dispatcher
mod Invariant
pub mod Accounting
pub mod Outcome
mod Examples
unfoldable pub use Dispatcher.*
