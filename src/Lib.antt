-- ===== src/Lib.antt =====
-- The cluster process manager: a simulator of a cluster whose controller places processes on nodes
-- under one of three schedulers, tick by tick, with failures, restarts and heartbeats.
--
-- The parts, and the files that model them:
--
-- internal/domain (types.go, errors.go, process.go, node.go, cluster.go, the types of scenario.go):
--   Domain/Types, Domain/Process, Domain/Node, Domain/Cluster, Domain/Scenario. Process.Transition
--   is `transition` over the table `can_transition`, Node.Allocate and Node.Release are `allocate`
--   and `release`. A method on a pointer takes the value and returns the new one.
-- internal/scheduler: Scheduler with one child per implementation. The interface is the data type
--   `Scheduler`; SelectNode returns the scheduler afterwards, which holds the cursor of RoundRobin.
--   Scheduler/Selection, Scheduler/Service and Scheduler/Order have the proofs.
-- internal/cluster/controller.go: Controller/State (the record `Controller`, New, emitLocked) and
--   Controller/Registry (nodes, scheduler, status of the simulation).
-- internal/cluster/lifecycle.go: Controller/Processes (the commands on one process),
--   Controller/Placement (scheduleReadyLocked), Controller/Tick (Step, Steps) with Tick/Execution and
--   Tick/Sampling.
-- internal/cluster/recovery.go: Controller/Failures.
-- internal/cluster/scenario.go: Controller/Scenario (prepareScenario, ValidateScenario, LoadScenario)
--   and Controller/Tick/Schedule (applyScheduledLocked). Scenario.Validate of
--   internal/domain/scenario.go is Domain/Scenario/Validation.
-- internal/cluster/invariants.go: Controller/Audit. The methods that only read are Controller/Views.
-- internal/engine/engine.go: Engine. It owns the controller and ticks it in a goroutine, which is the
--   step `loop_tick`. What a call of stopRealtime leaves is a function `stop`, a parameter that is
--   constrained by the relation `Stops`: the loop may take ticks before it sees the cancellation.
-- internal/metrics/report.go and collector.go: Metrics, which reads the controller's state.
-- internal/metrics/export.go: Metrics/Export, the header and the row of WriteCSV.
-- internal/transport/http: Transport, with one child per file of handlers. A request is the route
--   and what its handler reads, with `none` for a body that does not decode; `handle` returns the
--   status and the value of the response, and calls the controller or the engine. Transport/Routes is
--   the table of routes, Transport/Bodies decodeJSON and `receive`, which reads a request from a
--   method, a target and a body, and Transport/Setup NewHandler.
-- internal/engine/scenario_file.go: Engine/Files. internal/store and Cluster.Clone: Store.
-- cmd/clusterctl/main.go: Commands/Clusterctl. The arguments become an `Order`, which `request`
--   of Clusterctl/Exchange sends; Clusterctl/Intent says what a command line asks of the API by its
--   usage.
-- cmd/server/main.go and internal/logging/logger.go: Commands/Server and Commands/Logging. `boot`
--   goes from the environment to the API, which makes the engine that Transport serves.
-- cmd/simulator/main.go: Commands/Simulator, from a scenario file over Engine to Metrics.
--
-- The standard library of Go: Base/Text has functions of strings and fmt, Base/Flags flag.Parse,
-- Base/Numbers strconv.ParseInt with base 10, and Base/Urls the targets of requests that need no
-- escape; `none` is any other target. Parameters are encoding/json (`Codec`, with the behaviour
-- `DecodesObjects` that a theorem may rely on, `Source` and `Json`), encoding/csv and FormatFloat
-- (`Encoders`), the network and the files (`Network`, `Machine`), strings.ToUpper and ParseInt with
-- base 0.
--
-- How state is modelled. A method of the controller is an `Action`: it takes the controller and
-- returns a result and the controller afterwards, and the state survives an error, as it does in Go.
-- A result is a value, an error or a panic (a nil dereference). An error is its sentinel; its text is
-- left out, except where an event stores it. The mutex makes a method one step. A Go map is a list of
-- entries with distinct keys, in an order that stands for any that the runtime picks. A pointer to a
-- node or a process is its key in the map, and each assignment through it writes the value back, so
-- what a method did before an error stays done. Where the server hands its controller to the engine
-- and to the handlers, a pointer is an address with what lies there (Transport/Setup).
--
-- Integers. `int` and `int64` are 64 bits wide and wrap around: `add_int`, `sub_int` and `div_int`
-- reduce to two's complement. The event counter wraps at 2 ^ 64. float64 is the parameter `Float`, a
-- record of the operations that the code uses, without laws.
--
-- Loops are recursion on the list or on the count that they run over, so there is no fuel: Steps
-- runs `steps_from` on its count, RunScenario `run_ticks`, and RoundRobin probes each index once. The
-- loop of the engine has no count; `loop_ticks` repeats it as long as it runs.
--
-- The invariant is `IsConsistent` in Controller/Invariant/Facts. In the middle of a method some
-- processes run but have left their node: `IsConsistentBut` names them. Controller/Invariant has the
-- moves between such states, Controller/Consistency the methods that are made of them.
-- Controller/Frame has what the elementary writes leave alone, Controller/Outcome the answers of the
-- methods, Controller/Scenario, Engine, Metrics, Transport and Commands have their proofs as
-- children, and Controller/Tests, Transport/Tests and Commands/Tests runs and applications of the theorems.
--
-- Not modelled: the text of JSON and CSV, the headers of a response and the text of an error; targets
-- with escapes or with dots for segments; an error of a writer; the timeouts of the http.Server and
-- of the client, and what the logger prints; API.shutdown, which nothing calls; the documents, the
-- scenarios and the deployment, which hold no logic.
pub mod Base
pub mod Domain
pub mod Scheduler
pub mod Controller
pub mod Engine
pub mod Metrics
pub mod Transport
pub mod Store
pub mod Commands
