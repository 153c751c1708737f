-- ===== src/Lib.antt =====
-- The logic of the service monitor, as functions that compute, with the theorems that make it correct.
--
-- The program watches services. A scheduler runs journeys and hands their readings to the core, which
-- writes them, moves the state of each monitor and component, opens and resolves incidents and raises
-- alerts (internal/core/detect.go). Readings are folded into minute buckets and those into hour buckets
-- (internal/core/samples.go). A report turns the buckets of a period into downtime, availability,
-- coverage and the outcome of the objectives (internal/availability). Beside this the monitor keeps the
-- clocks of a fleet of enclaves honest: it polls each with a signed time and asks the control plane to
-- quarantine or release it (internal/clock).
--
-- Base: the Boolean tests, the lemmas on lists, sorting and counting, and the integers of 64 bits.
-- Model: the words and records of internal/model that several parts share.
-- Availability: internal/availability. Interval and Ratio are interval.go; Series is monitorSegments and
--   ComponentSeries of compute.go; Compute is Compute, and Compute/Objectives evaluate, credit and
--   latencyWithinBudget. Points gives a list of intervals its meaning, a set of instants; Series/Instants
--   says what the finest readings say at an instant.
-- Readings: the fold type of internal/core/samples.go, and in Tables the two passes of Fold over the
--   tables samples, buckets and registry.
-- Detection: internal/core/detect.go. Detection.antt is advanceMonitor and the tally of a component's
--   monitors; Changes has the incidents and alerts; Ticks is rollUpComponent and detect.
-- Clock: internal/clock. Clock.antt has the records and ClockArmed, Drift and the like; Decide is
--   decide.go; Answers is the reading that Poll makes of an answer; Rounds is the rest of one poll of an
--   enclave (Poll, advance, act, alertOnVault, clearUnconfiguredAlert of service.go), as a step on what
--   is held of that enclave, given the answers of the runtime and of the control plane. Its instants are
--   integers, the int64 of the wire.
-- Access: internal/auth, the role model. Access.antt is rbac.go and Access/Roles roles.go; Tables, Lookups and
--   Separation have what NewModel and the loops of Resolve compute, and Resolved what a resolved caller has.
-- Record: the record of changes. Record.antt is internal/model/envelope.go with clip and summarise of
--   internal/core/core.go; Identity is about TxID, Message and Refused about the messages that the core
--   writes itself. Record/Rows is internal/model/writeset.go with applyOne and apply of core.go, and
--   Rows/Commit is commit; Rows/Stored is the row of a transaction and rowToTransaction. View and Refined
--   read the tables as maps from keys to rows, Replay is about applying a write set twice, Commit/Entries
--   and Commit/Kept about the rows that commits write. A row holds JSON, whose encoder and decoder are
--   parameters: what is read back may differ in its types, or fail. Texts that are measured are bytes.
-- Maintenance: internal/core/maintenance.go, and Desk: internal/core/incidents.go, over typed rows. Their
--   lists of components are kept as lists, where the source keeps them as one text of up to 1024 bytes.
-- Definition: Validate of internal/model/domain.go and validateBrowser of internal/model/browser.go. The text
--   of an error is left out: a step is accepted or not. blankTemplates runs on fuel, one more than the bytes
--   of its text.
-- Scheduler: internal/probe/scheduler.go. Due and Slots say when a monitor runs, Marks which readings are
--   taken in maintenance.
-- Examples: concrete inputs, with the theorems at them.
--
-- A function of the source is a definition of the same name in snake case. State is passed explicitly;
-- what a function writes is a list of rows, which are applied when the transaction commits. Instants and
-- durations are natural numbers: the source's are int64, and none is negative where it comes from a clock
-- or a table. Products and sums that could pass 63 bits (user weights, parts per million) are integers with
-- the wrap-around of int64 written out. Loops are structural recursion, but for one, which has fuel. Go
-- ranges over maps in no fixed order; the model uses one order and says so where that is done.
--
-- Not modelled: the store and its SQL engine, whose queries appear as operations on lists (LIKE, the
-- equality of values and the identifiers that NewID draws are parameters; an upsert that the engine itself
-- fails is left out); SHA-256 and the encodings, which are parameters; the run of a journey; network, TLS, signatures and encryption; rendering and
-- routing; the copied library third_party/siv-go.
pub mod Base
pub mod Model
pub mod Availability
pub mod Readings
pub mod Detection
pub mod Clock
pub mod Access
pub mod Record
pub mod Maintenance
pub mod Scheduler
pub mod Desk
pub mod Definition
pub mod Examples
