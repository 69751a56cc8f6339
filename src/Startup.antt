-- ===== src/Startup.antt =====
-- The start of `run` in cmd/aggregator/main.go, cmd/ingestor/main.go and cmd/generator/main.go, and the
-- goroutines' errors in the first. GORM and its driver are a parameter, and so is `time.ParseDuration`.
pub mod Topic
use network_actions_aggregat.Prelude.{ℕ, String, Option, none, some, List, if◌then◌else◌}
use network_actions_aggregat.Entity.Errors.{Error, Result, ok, err, wrap_error, ◌>>=◌}
use network_actions_aggregat.Kafka.{ConsumerConfig, new_consumer}
use network_actions_aggregat.Postgres.Connection.{Config, Driver, new_connection}
use network_actions_aggregat.Settings.{
  Environment, AggregatorSettings, IngestorSettings, GeneratorSettings, aggregator_settings,
  ingestor_settings, generator_settings,
}

-- The `ConsumerConfig` of the aggregator; the fields that it leaves out are 0.
abbrev pub aggregator_consumer : AggregatorSettings → ConsumerConfig
aggregator_consumer s = record {
  brokers = s.kafka_brokers;
  topic = s.kafka_topic;
  group_id = s.kafka_group_id;
  max_wait = 0;
  min_bytes = 0;
  max_bytes = 0;
  commit_interval = 0;
}

module _ {Handle Pool : Type 0} (driver : Driver Handle Pool) (durations : String → Result ℕ) where
  -- The connection and `db.DB()`, which the three programs begin with.
  unfoldable pub connect : Config → Result Handle
  connect config = do
    db ← wrap_error "failed to connect to database" (new_connection driver config)
    sql_db ← wrap_error "failed to get database instance" (driver.pool_of db.0)
    ok db.0

  unfoldable pub start_aggregator : Environment → Result (Handle × ConsumerConfig)
  start_aggregator env = do
    let config = aggregator_settings durations env
    db ← connect config.db_config
    consumer ←
        wrap_error "failed to create kafka consumer" (new_consumer (aggregator_consumer config))
    ok (db, consumer)

  unfoldable pub start_ingestor : Environment → Result (Handle × ConsumerConfig)
  start_ingestor env = do
    let config = ingestor_settings durations env
    db ← connect config.db_config
    consumer ← wrap_error "failed to create kafka consumer" (new_consumer config.kafka_config)
    ok (db, consumer)

  unfoldable pub start_generator : Environment → Result Handle
  start_generator env = connect (generator_settings durations env).db_config
