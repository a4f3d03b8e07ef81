-- ===== src/Lib.antt =====
-- The flowctl SDK (pkg/): the parts of a streaming pipeline. A source streams events, a processor
-- turns each event into another, a consumer takes events out. Each is a gRPC service with a health
-- server, metrics, and a controller that registers it with the control plane and sends heartbeats. A
-- reporter tells flowctl of a component that runs on its own.
--
-- The files, and the code that they model:
--   Flowctl/Types        pkg/flowctl/types.go: service types, configuration, health states.
--   Flowctl/Metrics      pkg/flowctl/metrics.go: StandardMetrics is `Metrics`; each method, which
--                        holds the lock throughout, is a function on it.
--   Flowctl/Health       pkg/flowctl/health.go: StandardHealthServer is `HealthServer`; the open
--                        sockets of the process are a list beside it.
--   Flowctl/Controller   pkg/flowctl/controller.go: StandardController is `Controller`; what the
--                        control plane answers is the record `ControlPlane`.
--   Service              what Start and Stop of pkg/source/source.go and pkg/processor/processor.go
--                        have in common, step by step; `Surroundings` is what the system answers.
--   Source               pkg/source: StandardSource is `Source`; Source/Stream is StreamEvents.
--   Processor            pkg/processor: StandardProcessor is `Processor`; Processor/Handler is the
--                        registry, Processor/Stream is Process.
--   Consumer             pkg/consumer/service.go: ConsumerService is `Consumer`, Consumer/Stream is
--                        Consume; Consumer/Config is pkg/consumer/config.go, and Consumer/Run is
--                        Run of pkg/consumer/consumer.go with GetInfo of the service.
--   Sink                 pkg/consumer/sinks/postgresql: the database is its rows and the connections
--                        that open transactions hold.
--   Stellar/Config       pkg/stellar/config.go; Stellar/Run and Stellar/Names are Run and RunTransform
--                        of stellar.go and transform.go up to the processor that they make, and
--                        Stellar/Handlers is what they register with it.
--   Stellar/ContractEvents  pkg/stellar/processors/contract_events: a ledger's contract events, and
--                        their batch, which Sink takes.
--   Stellar/Invocations  pkg/stellar/processors/contract_invocation: Numbers and Values are the
--                        conversions of helpers.go, Arguments its function names and arguments, Calls
--                        the walk over authorizations, Changes the state changes and diagnostic
--                        events, Ledger the walk over a ledger, Events the event type, Proto
--                        convert.go.
--   Stellar/Xdr, Stellar/Panics  the ledger types of the xdr library that these read, with nil
--                        pointers, and results that may be a panic.
--   Reporter             pkg/component/reporter.go: Reporter/Setup is its start and registration,
--                        Reporter/Chunks the chunk reports and the heartbeat loop.
--   Identifiers          generateID of the utils.go files, on given bytes or a given time.
--   Errors, Protocol     error values as `errors.Is` and `errors.As` walk them, and the event type.
--   Base                 names, tests, lists, dictionaries and machine words that all parts share.
--   Examples             the theorems at concrete inputs.
--
-- A method that takes the lock for its whole body is one function on the state; its error is returned
-- beside the new state, and a panic is an outcome of its own. Start of the controller is one step too,
-- though it reads the connection before it takes the lock. A stream is a loop over a script: one
-- round for each turn, with what the context, the channels, the peer and the user's function do in
-- it. The loops recur on the script, so no fuel is needed; a script that ends early leaves the stream
-- running. An int64 is a number below 2 ^ 64, with its wrap-around written out. A map is an
-- association list; no result depends on its order.
--
-- Outside are the generated protocol code, gRPC, HTTP and JSON, the ledger library, strkey and
-- base64, the database, floats, the clock, the environment and the parsers of numbers: parameters
-- or arguments, each named where it is used. Not modelled are the source of random bytes, logging,
-- the signals and servers of the Run functions, and the examples.
pub mod Base
pub mod Errors
pub mod Protocol
pub mod Identifiers
pub mod Flowctl
pub mod Service
pub mod Source
pub mod Processor
pub mod Consumer
pub mod Reporter
pub mod Stellar
pub mod Examples
pub mod Sink
