-- ===== src/Lib.antt =====
-- CtrlDB: the operation lifecycle of internal/workflow over the types of internal/domain, and the
-- durable stores and the audit handoff of internal/control.
--
-- An operation is a machine over a fixed transition table (internal/workflow/machine.go). Every
-- boundary that it crosses is appended to a journal, and ValidateJournal
-- (internal/workflow/journal.go) replays a journal through a fresh machine before anything is
-- decided on it. A request to cancel (internal/workflow/cancellation.go) is checked against the
-- journal and the execution contract (internal/domain/plan.go), and is then routed at once, by a
-- decision that moves the machine a single time, or recorded in the journal until a safe boundary.
-- Whether a failed attempt is made again is decided from the contract alone
-- (internal/workflow/retry.go). internal/domain has the closed string types, the records of the
-- journal and their text codecs. Before any operation, the audit bucket is bootstrapped and its
-- retention locked by a handoff that resumes from its own records (internal/control/handoff.go);
-- what is durable afterwards stands in stores whose writes are create-only or a compare-and-swap
-- (internal/control/store.go).
--
-- Files. Prelude: shared names, lists, characters, results. Domain: Enum is the common shape of the
-- closed string types, where `other s` stands for a string that is none of the constants;
-- Operation, Identity, Environment, Exposure, Outcome, Retry and Journal are the files of
-- internal/domain, Time is time.Time as an instant with its zone, Approval is approval.go, Contract
-- the execution contract of plan.go and Contract/Build NewExecutionContract. Workflow/Machine:
-- NewMachine, RestoreMachine, CanTransition, Transition. Workflow/Route:
-- cancellationRouteReachable. Workflow/Patterns: the compiled patterns. Workflow/Journal: Entry is
-- ValidateJournalEntry, Cursor the variables of the loop of ValidateJournal, Handlers the three
-- kinds of entry, Stream the loop, ObjectName is JournalObjectName. Workflow/Retry: DecideRetry.
-- Workflow/Definition: NewDefinition and Registry. Workflow/Cancellation: the values and UIState;
-- its children Restore (RestoreCancellationController, pointOfNoReturnReached), Apply
-- (routeCancellationTo, ApplyCancellation), Context (validateCancellationFoundation,
-- cancellationContext), Request (Request) and Boundary (AtBoundary). The other child modules hold
-- the theorems. Control: Bytes is byte sequences and maps from names, Store and Store/Memory are
-- the descriptors and the stores of store.go, Store/Calls the calls of many clients, Names
-- the object names. Control/Handoff: the values of handoff.go; its children Step (the state, the
-- parameters and how a step passes the state on, errors included), Records (the record chain and
-- the private files of statedir.go), Session (the status, the record to append, the checks of a
-- bucket) with Session/Steps (open, load, append, authorizeMutation, the reads of the provider),
-- Bootstrap and Lock (the methods of AuditHandoff); Walk carries one invariant through all of them,
-- Runs, Chain and Durable hold the theorems. Tests: concrete histories, stores and a handoff on a
-- small world.
--
-- Conventions. A Go pointer is an Option, an error a Result, and a method on a pointer returns what
-- the pointer's target holds afterwards. An unsigned integer of w bits is a ℕ with `% 2 ^ w` where
-- it is added to, an int64 is Prelude/Int's ℤ. A *Machine that is compared is an address with the
-- machine there; the atomic cell that the copies of a cancellation decision share is a number into
-- an explicit store, which the operations return. Error values keep the path and the reason of the
-- source's message.
--
-- Bounds. The route search runs on fuel for thirteen rounds: no state is queued twice and only the
-- eleven states that are not terminal are queued. All else is structural recursion: the doubling of
-- a retry delay has one round per earlier attempt. Generations and sequence numbers wrap at 2 ^ 64.
--
-- Parameters: the SHA-256 over JSON that identifies a contract and a journal is a function into
-- Option String, none where encoding fails. CRC32C is a function on contents. The handoff takes the
-- provider, the clock, the outcome of the system calls, the JSON codec, SHA-256 and
-- EnsureBootstrapEnvelope as functions over a world of any type; its state also lists the mutations
-- that the provider was asked for, with the records and the last reading of the clock at that
-- moment. The state holds the directory of one operation, and the listing gives its entries in
-- place of their names.
--
-- Not modelled: the JSON codecs of the journal and the raw output of a step (they are the encoding
-- library's work), and the rest of internal/control (sealing and parsing of the envelope, seeds,
-- bucket policies, the executor); the other packages policy, isolation, observation and config hold
-- logic of their own on top of these types; internal/gcp, runner, redact, secret and archcheck are
-- adapters, text processing and tooling.
pub mod Prelude
pub mod Domain
pub mod Workflow
pub mod Control
mod Tests
