-- ===== src/Lib.antt =====
-- StreamRail: events come in by HTTP or NATS, are grouped into windows by key, and each closed
-- window is aggregated under the rules that apply to it and reported where HAVING is satisfied.
--
-- The parts, with their code under internal/:
--   Common: shared names; Go's int64 as integers with wrap64 and maps as association lists.
--   Clock: what the code uses of package time. Instants are nanoseconds since the zero Time.
--   Model: model/event.go. F is the type of float64 wherever it appears.
--   Rule and Rule/Config: rule/rule.go and rule/config.go. Floats come by an interface (Floats), as
--     do decoded YAML and time.ParseDuration (Durations).
--   Window: the types of window/tumbling.go that both managers share, and the interface Store.
--   Window/Contract says what the Manager relies on from a store.
--   Window/Tumbling: the Manager of window/tumbling.go; add is add_event, closeExpired is
--     close_expired, gcClosed is gc_closed, Restore is restore; Window/Tumbling/Run is the loop.
--   Cases has a rule for each operation, from which the other children prove what they state.
--   Window/Sliding: the SlidingManager of window/sliding.go.
--   Aggregator: aggregator/agg.go. The record Aggregate is the code's Result.
--   Notifier: notifier/*.go; text/template and net/http come by an interface (Network).
--   Engine: engine/engine.go: which rules share a stream, the evaluation of a batch, the barrier; in
--     Engine/Setup the Engine, its options and the managers that Run starts; in Engine/System fanOut
--     and the managers as one system; in Engine/Dispatch the way of the batches from the managers
--     to the loop of Run; in Engine/Pipeline both as one, and in Engine/Pipeline/Waiting with managers
--     that wait for room on out.
--   Ingester: ingester/http.go and the message handler of ingester/nats.go; Ingester/Connection has
--     Start and Stop over an interface of the NATS client (Client).
--   Badger: store/badger.go. The database and encoding/json come by interfaces (Database, Json);
--     Badger/Laws says what the stores rely on, Badger/Refines reads them as a Window/Contract.
--   Metrics: metrics/metrics.go: the counters and their labels.
--   Main: cmd/streamrail/main.go: what the flags and the configuration set up; Main/Shutdown is
--     runServer as the sequence of what it opens, starts and closes.
--   Tests: a store and a database in memory that keep the contracts, and a run of each theorem.
--
-- The engine makes a manager per stream; fanOut hands each event to every manager behind a barrier;
-- a manager sends batches on a channel to the engine, which aggregates and notifies.
--
-- Conventions. The channel of a manager is the list of the batches sent on it; a send on it waits for
-- room in Engine/Pipeline/Waiting only. A select that may take ctx.Done() is given a number of sends
-- that go through before that. A range over a map is given the order of its visit. Counters and int64
-- arithmetic keep their wrap-around; the loops are structural, and no fuel is used.
--
-- Not modelled: what the libraries do behind the calls (the database, NATS, net/http, the Prometheus
-- registry, JSON and YAML decoding, time.ParseDuration, text/template), of which the models take the
-- answers or an interface; prints, and the handling of the signals; when an entry with a time to live
-- expires; that a Manager whose late correction waits on a full channel does not see ctx.Done(), so
-- that the loop of Run does not return; and that a write to the database may fail for one call and
-- not for the next.
pub mod Common
pub mod Clock
pub mod Model
pub mod Rule
pub mod Window
pub mod Aggregator
pub mod Notifier
pub mod Engine
pub mod Ingester
pub mod Badger
pub mod Metrics
pub mod Main
pub mod Tests
