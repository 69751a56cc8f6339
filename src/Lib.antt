-- ===== src/Lib.antt =====
-- Network actions aggregator: a verification library.
--
-- The program takes events of users (calls, messages, data sessions) from Kafka. The ingest use case
-- writes them to PostgreSQL in batches; the aggregation use case sums them by day, month and type in
-- memory, flushes the sums to PostgreSQL by upserts that increment, and recounts the periods of late
-- events. The files follow these parts.
--
-- - Prelude: the names that all files share, Boolean tests on numbers, lists, equality as an interface.
-- - Dict: association lists for Go's maps.
-- - Clock: `time.Time` as an instant with a zone offset, `Truncate`, `time.Date`, `AddDate` and `Format`
--   as the use cases call them, over a proleptic Gregorian calendar. Its children are the calendar
--   (Civil), its laws (Laws), months (Months) and the texts of dates (Text).
-- - Entity (internal/domain/entity): events and `Validate`; Errors, Json, Validation.
-- - Aggregation (internal/domain/entity/aggregation.go, cmd/generator/verifier.go `aggData`): the sums;
--   Sums has their arithmetic.
-- - Buffer (`dayBuffer`, `monthBuffer` and `addToBuffer` of internal/usecase/aggregate_events.go). Streams has
--   the keys of an event and the sums of a stream, Dates the dates under which the tables of migrations/ keep
--   the keys: the month 2006-01 is the DATE 2006-01-01.
-- - Repository (internal/domain/repository): the two interfaces over the state of the storage, and the law
--   of an upsert that the use cases rely on.
-- - Package: `github.com/google/uuid` and the texts of times and messages as parameters.
-- - Aggregator (internal/usecase/aggregate_events.go): `isDuplicate`, `markProcessed`, `isLateEvent`,
--   `markDirty`, `addToBuffer`, `processEvents`, `flushBuffers`, `cleanupProcessedEvents`,
--   `reconcileDay`, `reconcileMonth` and the round of `runReconciliation` have functions of these names
--   in snake_case. Its children prove what they do: Dedup, Invariant, Cleanup, Lateness, Upserts, Keyed, Flush,
--   Losses, Reconcile, Delivered, Shutdown. System has the goroutines of `Run` as a step relation, with its proofs in
--   Balance, Account, Balanced and Conservation.
-- - Ingest (internal/usecase/ingest_events.go): `worker`, `saveBatchWithRetry`, `ProcessSingleEvent`;
--   Retry and Delivery. Pool has `ProcessEvents`, the rounds of several workers in any order; Shutdown
--   has a round whose context is done.
-- - Message (internal/handler/consumer/kafka_message.go and the message of cmd/generator/producer.go):
--   `ToEvent` and `eventToMessage`; Roundtrip.
-- - Kafka (internal/infrastructure/kafka, cmd/generator/producer.go): the consumer's loop, `SendEvent` and
--   `SendBatch`; Safe, Delivery and Expected. Feed has the goroutine of `ConsumeEvents` beside those that receive from its
--   channel, as a step relation, and Feed/Fed its proofs.
-- - Models (internal/infrastructure/repository/postgres/gorm_models): rows and conversions.
-- - Postgres (internal/infrastructure/repository/postgres): the two repositories over GORM, which is a
--   parameter; Sql has the statements and the documented behaviour of the database; Upserts, Periods (the
--   dates of the periods, as the aggregator's theorems ask for them), Keys, KeyGrowth, Events, Finds and Workers are proofs. Connection has `NewConnection` of internal/infrastructure/postgres/db.go.
-- - Verifier (cmd/generator/verifier.go): `VerifyAggregations` with `calculateExpectedAggregations`, the
--   conversions and the comparisons; Expected and Comparison. Tracking has the maps of sent, verified and
--   missing events with `VerifyAll` and `Stats`; Found, Checked, Counting and Persisted.
-- - Generator (cmd/generator/generator.go): random events over a parameter for randomness; Drawn, Finished
--   and Laws.
-- - LoadTest (cmd/generator/main.go): the batches, the wait for persistence and the check of duplicates;
--   Sending has the generator and the workers of `generateAndSendEvents` and `generateAndSendDuplicates` as
--   a step relation. Batches, Sending/Progress, Sending/Outcome, Persistence and Phases are proofs;
--   Verdict has the phases of `run` together.
-- - Jsonb (internal/infrastructure/repository/postgres/gorm_models/common.go): `Value` and `Scan` of the
--   JSON column.
-- - Ingestor (cmd/ingestor/main.go): the consumer, the ingest workers and `run` on one channel, as a step
--   relation; Kept, Stored, Tables, Shutdown and Exit are proofs.
-- - Service (cmd/aggregator/main.go): the consumer, the goroutines of the aggregator and `run`; Served and
--   Stored are proofs.
-- - Settings (cmd/*/main.go): `getEnv`, `getEnvInt`, `parseDuration` and the configurations; Numbers has the
--   two ways of reading a number, Agree and Shared are proofs. Startup has the beginning of each `run`, up
--   to its consumer; Topic is a proof.
-- - Pipeline: a batch from the producer over the consumer and a worker to the table.
-- - Examples: concrete storages and runs; Tables is the repository of Postgres over the one of Storage.
--
-- How the model reads the source. A value of type `error` is an `Error`, nil is `none`. A `context` is its
-- `Err()` at the time of a call. Each reading of the clock is an argument. What a `select` meets is a
-- list of arrivals or signals; the steps of the goroutines of the aggregator, each under its mutex, come
-- in any order. The order of ranging over a map is a function from lists to lists that permutes. A sum is
-- a 64-bit number with its wrap-around written out. A worker's retries are structural on the attempts
-- that are left, which start at the configured number, so no fuel is needed. `VerifyAll` has fuel for as
-- many batches as there are ids, which is enough as each batch takes one at least; the loop over the
-- batches of the load test has fuel for the events. The Kafka client's calls are part of the rounds that the
-- consumer meets. Durations of the configuration are not negative.
--
-- Not modelled: logging and printed statistics, the report of the load test, the Kafka client itself, the
-- connection pool, the loading of a `.env` file, the types of internal/domain/entity without operations
-- (`UserDetail`, `AggregationResult` and their parts), and the tickers and wait groups, which only decide the
-- order of the steps. The text of `time.ParseDuration` is a parameter. The 30 seconds and the 5 seconds after
-- a signal may end at any time.
mod Prelude
pub mod Dict
pub mod Clock
pub mod Entity
pub mod Aggregation
pub mod Buffer
pub mod Repository
pub mod Package
pub mod Aggregator
pub mod Ingest
pub mod Ingestor
pub mod Models
pub mod Postgres
pub mod Verifier
pub mod Message
pub mod Kafka
pub mod Jsonb
pub mod Generator
pub mod LoadTest
pub mod Pipeline
pub mod Service
pub mod Settings
pub mod Startup
mod Examples
