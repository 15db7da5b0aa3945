-- ===== src/Dns.antt =====
-- internal/diagnostics/checks/dns: the wire resolver (wire.go) and the selection of addresses
-- (selection.go). The message parser of golang.org/x/net/dns/dnsmessage and the exchange with a
-- server are arguments: a message is what the parser reads of it, section by section. Names are
-- ASCII, as they are in a DNS message.
mod Names
pub mod Chain
pub mod Response
pub mod Family
mod Selection
pub mod Selected
mod Examples
