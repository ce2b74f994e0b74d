-- ===== src/Lib.antt =====
-- The workflow fixtures of the conformance ports: a model of the Go programs under
-- ports/samples-go/workflows, ports/dbos-transact-py/workflows, ports/durabletask-go/workflows and
-- ports/temporalio-sdk-go/workflows, with the theorems that hold of them.
--
-- The program. Each workflow is one entry point `func HandleX(h cleat.HostCalls, ...) (string, error)`
-- of its own package. It keeps its state in local variables, acts by calls of `h`, and returns a JSON
-- text or an error. The workflows interact through the host alone: a parent names the definition of a
-- child and the JSON of its arguments, a continue-as-new the arguments of the next run, a sender the
-- name of a signal.
--
-- The host. The package github.com/cleat-team/cleat/cleat is not in the repository, so that it is a
-- parameter. Host/Calls lists its methods with the types of their answers; Host/Program has a body as a
-- tree of calls, written with do blocks; Host/Run runs a body against a Host, any machine that answers
-- a call or stops the run at it. A run has an outcome, a trace of the answered calls, and a final
-- state. Host/History reads a trace (deliveries, sleeps, children, locks, updates, ...), Host/Logic has
-- the rules by which a body ensures a property of every run against every host, Host/Progress the rules
-- for one host, with the hosts that have finitely many signals to deliver, Host/Delivery the hosts that
-- deliver them in time to the awaits that ask for them, Host/Chain the runs that continue as new,
-- Host/Completion the rules for runs that return, Host/Recovery the runs that crash and are taken over
-- by another worker with the recorded answers, and Host/Returns and Host/Settling what a child may hand
-- to its parent. A theorem that does not restrict the host holds whatever the engine answers and
-- wherever it stops the run.
--
-- JSON. Base/Json is a reader of flat JSON objects by RFC 8259, independent of the code; Base/Format/Json
-- has what it makes of the texts that %d, %q and %t write. Host/Binding is the engine's binding of a
-- run's arguments from such a text: a parameter, of which the chains rely on no more than that it reads
-- an object of just a text under "key" and an int under the number's name as these two arguments.
--
-- The fixture service. scripts/fixture-service.py is where the durable calls of the workflows go in the
-- tests. Service has its handlers as functions of its tables (Service/State), with json.loads, int of a
-- text and the timeouts that Condition.wait_for takes as parameters; Service/Threads has each request
-- as a thread, and the interleavings of their steps; Service/Forwarding what the workflows rely on of
-- the worker that forwards the calls, as the script documents it: which answers are results, errors at
-- once, or tried again. On these stand the runs of workflows against the service: Service/Bank (the
-- saga), Service/Retrying (retries and dead letters), Service/Serial (parallelunit) and
-- Service/Announcing (continueasnew); Service/Routes has what the service answers of its counters and
-- of its log, which holds the recorded calls in order (Service/Threads/Recording).
--
-- Goroutines. The state of a program with goroutines is a record of its variables and of where each
-- goroutine is; a step is that of one goroutine, a blocked one has none, and what ends the program is a
-- step of its own kind. Samples/Nondeterminism/Schedule has executions, which are any sequences of
-- steps, and schedulers, which choose whose step comes next.
--
-- Base has what the parts share: Go's int with its wrap-around and durations (Base/Int), strings.Join,
-- strings.Split and strings.Contains (Base/Text), and the verbs %d, %q and %t (Base/Format, where the
-- printability of characters above U+00FF is a parameter).
--
-- Files and code. A file names the workflow packages that it models at its top; HandleSignalCounter is
-- handle_signal_counter, and so on.
--   Samples/SignalCounter   ports/samples-go/workflows/signalcounter/main.go
--   Samples/AwaitSignals    ports/samples-go/workflows/awaitsignals/main.go
--   Samples/Quorum          quorum and twoawaits of the same folder
--   Samples/Saga            saga; Samples/Saga/Runner has the laws of the package's saga helper
--   Samples/SelectorRace    selectorrace, with the package's selector as a parameter
--   Samples/DurableClock    durableclock
--   Samples/ContinueAsNew   casnchild and casnparent
--   Samples/Children        childparent, childsleeper and querytarget
--   Samples/Nondeterminism  the programs of its folder nondeterminism: HelperEscape and Goroutine are
--                           those with goroutines; Sync has channels, mutexes and wait groups
--   Durabletask             ports/durabletask-go/workflows
--   Sdk, Sdk/Updates        ports/temporalio-sdk-go/workflows
--   Dbos/...                ports/dbos-transact-py/workflows: Cancellation, Chain, Signals, Promises,
--                           Locks, Children, Calls, Sends, Small, Updates, Replay
--   Service/...             scripts/fixture-service.py
--   Tests                   hosts for the examples, and runs against them
--
-- Loops. A loop over a count or a list is recursion on what is left of it. The signal loops run on
-- fuel, one unit for each round: more fuel than the host has signals to deliver is enough. The polling
-- loops of HandleCancellable and HandleBulkCancelSteps take ms / 250 + 2 rounds, which is enough for
-- every duration that leaves room for one step of 250 in an int. A chain of continue-as-new runs takes
-- as many links as its argument says. A scheduler runs nonDeterministicHelper for as many steps as
-- the rank of its first state, 20, which each step lowers. A request of the fixture service takes at
-- most five steps.
--
-- Choices. An int is 64 bits wide. `(v, err)` is a Result where the caller reads `v` only if `err` is
-- nil. A closure handed to DurableDeferFunc or SideEffect is the one action in its body. The updates
-- that the host dispatches during an await are read from the host after it (`dispatched`). JSON
-- encoding and decoding are parameters where a workflow calls them itself.
--
-- A body of a request to the service is an object of texts, integers and truth values, and a request
-- that a worker forwards for a run meets no other request with the same key.
--
-- Not modelled: the analyzer of the engine, which is to refuse some of the samples; the tests, which
-- drive an engine over HTTP; of the fixture service its transport and the answers of /api/chat, which
-- keep no state; the other scripts and text.
pub mod Base
pub mod Host
pub mod Samples
pub mod Durabletask
pub mod Sdk
pub mod Service
pub mod Dbos
pub mod Tests
