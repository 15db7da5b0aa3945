-- ===== src/Lib.antt =====
-- Orynelo, a network diagnostic tool: a model of its diagnostic core and of the scheduling beneath
-- its desktop interface, with theorems about both.
--
-- How the parts interact. A runner (internal/diagnostics/runner.go) normalises the options, splits
-- the plan of checks into a mandatory part, a direct preflight and the actual request, and runs one
-- engine (internal/diagnostics/engine/engine.go) for each. An engine runs the stages in order and
-- the checks of a stage at once, turns whatever they do into results (internal/diagnostics/model),
-- and emits progress events. What the checks observed becomes a graph of network paths
-- (internal/diagnostics/network_paths.go), and the results one conclusion
-- (internal/diagnostics/summary/summary.go). The events go through a bounded queue to their consumer
-- (internal/diagnostics/event_delivery.go). The DNS check asks for details over the wire
-- (internal/diagnostics/checks/dns/wire.go). The desktop application starts its work through scopes
-- of a task runner (internal/gui/taskrunner/taskrunner.go). Diagnoses are kept in a database
-- (internal/storage), which is brought up to date when it is opened, and the settings in a file
-- (internal/config/config.go).
--
-- Files and code.
--   Prelude     lists, tests and integers over native numbers, equality as an interface.
--   Model       internal/diagnostics/model/model.go: Status, CheckResult with Complete, CheckEvent,
--               EventDeliveryStats.
--   Engine      Engine.Run, runStage, runCheck, stoppedResult, ensureCheckTimeoutEvidence. Run takes
--               the results of a stage in order; Stage has the schedules of its workers.
--   Runner      splitPlanAtCheck, splitPlanAfterCheck, splitMandatoryPreflight (Plans), the skip and
--               the marks of the direct preflight (Policy), the engines of Diagnose (Diagnose), and
--               the numbers of normalizeOptions (Limits).
--               Concluded has the end of Diagnose.
--   Network     the graph and what it is made of (Graph), mergeLegacyAttempts (Attempts),
--               correlatedNetworkResult (Correlate).
--   Summary     the searches (Searches), diagnosticFacts (Facts), the candidates of each layer
--               (Transport, Http, Layers, Attention), Build with its choice and references (Build).
--   Storage     the migrations (Schema), migrateFrom (Migrate), OpenContext (Open).
--   Config      the settings of internal/application/configuration.go with Validate (Settings), Load
--               and Save of internal/config/config.go (Files).
--   Delivery    eventDispatcher as a state with its one worker (Dispatcher), finishEventDelivery
--               (Outcome).
--   Dns         canonicalDNSName (Names), followCNAMEChain (Chain), parseWireResponse (Response),
--               query and lookupFamily (Family).
--               SelectAddresses of selection.go, beside it, with its options (Selection).
--   Taskrunner  Scope and its methods (Scope), in any order with tasks and callbacks (Steps); the
--               queue of mutations, its worker and the slots of reads (Queue).
-- A module Examples of each part has runs at concrete inputs.
--
-- Conventions. An instant is a number of nanoseconds since Go's zero time, a uint64 is a number with
-- its wrap-around written out (u64), and a map is an association list. A mutex makes a method one
-- step; what a method does after it gave up the lock, such as sending a signal, is a step of its own
-- where it can be observed. A callback of a scope joins the waiting ones in the step of its method;
-- since waiting callbacks are executed in any order, at any time, this loses no order of execution.
-- A callback takes three steps: it asks whether the runner is closed, tests the scope, and calls the
-- observer, and anything may happen between them.
--
-- What stands outside is an argument: what checks, clocks and contexts do is a World with one Attempt
-- for each position of a plan, and Worlds has what the checks recorded when each event is emitted;
-- time.Duration.String is duration_string; what the message parser of golang.org/x/net/dns/dnsmessage
-- reads of a message is the value Message, and what a server replies is a function; what net and
-- net/netip make of an address is IpLibrary. DNS names are ASCII. Whether the texts among the
-- options are valid are flags.
-- SQLite and its driver are the record Database, whose promises are KeepsVersion and KeepsSchema; the
-- file system and the copy of createMigrationBackup are Surroundings. net.IP.String is ip_string.
-- The YAML library is the record Yaml, whose promise is ReadsBack, and Luck says which calls of the
-- file system succeed while the settings are saved.
-- Of a record of the diagnostic model that the graph reads, Graph has the fields that are read.
--
-- Bounds. The theorems on scopes hold up to 2 ^ 63 - 1 steps and those on the dispatcher up to
-- 2 ^ 64 lost events, before the counters wrap. The fuel of followCNAMEChain and of lookupFamily is
-- the code's own bound of 8; both are total.
--
-- Not modelled: the checks but for the wire resolver and the selection of addresses (network I/O),
-- privacy and redaction, history and profiles (SQL statements and JSON), application services, the
-- interface's screens, the command line. A panic of SkipCheck itself and negative limits of an engine, which its callers
-- exclude, are not modelled, nor are negative durations of observations, and what a configuration of
-- the database that fails has changed is left open.
pub mod Prelude
pub mod Model
pub mod Engine
pub mod Taskrunner
pub mod Delivery
pub mod Dns
pub mod Runner
pub mod Network
pub mod Storage
pub mod Config
pub mod Summary
