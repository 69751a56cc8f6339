-- ===== src/Settings.antt =====
-- The configuration of the programs cmd/aggregator/main.go, cmd/ingestor/main.go and
-- cmd/generator/main.go from the environment. `time.ParseDuration` is a parameter, in nanoseconds.
-- Negative numbers, for which `make` and `NewTicker` panic and loops do not run, count as 0 here, and the
-- minutes that a connection lives are few enough for 64 bits in nanoseconds.
pub mod Numbers
pub mod Agree
pub mod Shared
use network_actions_aggregat.Prelude.{
  ℕ, ◌*◌, String, Option, none, some, List, [], ◌∷◌, ◌==◌, string_eq, if◌then◌else◌,
}
use Prim.Native.String.{◌++◌}
use network_actions_aggregat.Entity.Errors.{Result, ok, err}
use network_actions_aggregat.Kafka.{ConsumerConfig}
use network_actions_aggregat.Postgres.Connection.{Config}
use network_actions_aggregat.Aggregator.{Config as AggregateConfig}
use network_actions_aggregat.Ingest.{Config as IngestConfig}
use network_actions_aggregat.LoadTest.{Config as LoadConfig}
use network_actions_aggregat.Settings.Numbers.{ℤ, pos, negsuc, atoi, sscanf}

-- `os.Getenv`, which gives an empty text for a variable that is not set.
abbrev pub Environment : Type 0
Environment = String → String

-- `getEnv`.
unfoldable pub get_env : Environment → String → String → String
get_env env key default = let value = env key in if value == "" then default else value

abbrev pub as_count : Option ℤ → ℕ → ℕ
as_count none default = default
as_count (some (pos n)) default = n
as_count (some (negsuc n)) default = 0

-- `getEnvInt`, of the aggregator and of the two other programs.
unfoldable pub get_env_int : Environment → String → ℕ → ℕ
get_env_int env key default =
    let value = env key in if value == "" then default else as_count (atoi value) default

unfoldable pub get_env_int_scanned : Environment → String → ℕ → ℕ
get_env_int_scanned env key default =
    let value = env key in if value == "" then default else as_count (sscanf value) default

abbrev pub second : ℕ
second = 1_000_000_000

abbrev pub minute : ℕ
minute = 60 * second

-- `fmt.Sprintf("%s:%s", …)` with the host and the port of the broker.
unfoldable pub kafka_broker : Environment → String
kafka_broker env = get_env env "KAFKA_HOST" "localhost" ++ ":" ++ get_env env "KAFKA_PORT" "9092"

-- The `Config` of the aggregator; its last three fields go to the use case.
pub record AggregatorSettings : Type 0 where
  pub db_config : Config
  pub kafka_brokers : List String
  pub kafka_topic : String
  pub kafka_group_id : String
  pub use_case : AggregateConfig

-- The configurations that `run` of the ingestor makes.
pub record IngestorSettings : Type 0 where
  pub kafka_config : ConsumerConfig
  pub use_case : IngestConfig
  pub db_config : Config

-- The `Config` of the load generator; `load` has the counts of the load test.
pub record GeneratorSettings : Type 0 where
  pub kafka_brokers : List String
  pub kafka_topic : String
  pub db_config : Config
  pub load : LoadConfig
  pub verify_interval : ℕ
  pub verify_timeout : ℕ

module _ (durations : String → Result ℕ) where
  -- `parseDuration`.
  abbrev pub or_default : Result ℕ → ℕ → ℕ
  or_default (ok d) default = d
  or_default (err e) default = default

  unfoldable pub parse_duration : String → ℕ → ℕ
  parse_duration value default = or_default (durations value) default

  unfoldable pub aggregator_settings : Environment → AggregatorSettings
  aggregator_settings env = record {
    db_config = record {
      host = get_env env "POSTGRES_HOST" "localhost";
      port = get_env env "POSTGRES_PORT" "5432";
      user = get_env env "POSTGRES_USER" "app_user";
      password = get_env env "POSTGRES_PASSWORD" "app_password";
      db_name = get_env env "POSTGRES_DB" "network_events";
      ssl_mode = get_env env "POSTGRES_SSLMODE" "disable";
      max_open_conns = get_env_int env "POSTGRES_MAX_OPEN_CONNS" 25;
      max_idle_conns = get_env_int env "POSTGRES_MAX_IDLE_CONNS" 10;
      conn_max_lifetime = 5 * minute;
      conn_max_idle_time = 5 * minute;
    };
    kafka_brokers = kafka_broker env ∷ [];
    kafka_topic = get_env env "KAFKA_TOPIC" "events.telecom";
    kafka_group_id = get_env env "KAFKA_GROUP_ID" "aggregator-group";
    use_case = record {
      streaming_flush_interval =
          parse_duration (get_env env "AGGREGATOR_FLUSH_INTERVAL" "30s") (30 * second);
      late_event_threshold =
          parse_duration (get_env env "AGGREGATOR_LATE_EVENT_THRESHOLD" "5m") (5 * minute);
      dirty_period_channel_size = get_env_int env "AGGREGATOR_DIRTY_CHANNEL_SIZE" 1000;
    };
  }

  unfoldable pub ingestor_settings : Environment → IngestorSettings
  ingestor_settings env = record {
    kafka_config = record {
      brokers = kafka_broker env ∷ [];
      topic = get_env env "KAFKA_TOPIC" "events.telecom";
      group_id = get_env env "KAFKA_GROUP_ID_INGESTOR" "ingestor-group";
      max_wait = 500 * 1_000_000;
      min_bytes = 1;
      max_bytes = 10_000_000;
      commit_interval = 1 * second;
    };
    use_case = record {
      batch_size = get_env_int_scanned env "INGESTOR_BATCH_SIZE" 1000;
      batch_timeout = parse_duration (get_env env "INGESTOR_BATCH_TIMEOUT" "5s") (5 * second);
      workers_count = get_env_int_scanned env "INGESTOR_WORKER_COUNT" 8;
      retry_attempts = get_env_int_scanned env "RETRY_ATTEMPTS" 3;
      retry_delay = 100 * 1_000_000;
    };
    db_config = record {
      host = get_env env "POSTGRES_HOST" "localhost";
      port = get_env env "POSTGRES_PORT" "5432";
      user = get_env env "POSTGRES_USER" "app_user";
      password = get_env env "POSTGRES_PASSWORD" "app_password";
      db_name = get_env env "POSTGRES_DB" "network_events";
      ssl_mode = get_env env "POSTGRES_SSLMODE" "disable";
      max_open_conns = get_env_int_scanned env "POSTGRES_MAX_OPEN_CONNS" 25;
      max_idle_conns = get_env_int_scanned env "POSTGRES_MAX_IDLE_CONNS" 5;
      conn_max_lifetime = get_env_int_scanned env "POSTGRES_CONN_MAX_LIFETIME_MIN" 5 * minute;
      conn_max_idle_time = get_env_int_scanned env "POSTGRES_CONN_MAX_IDLE_TIME_MIN" 5 * minute;
    };
  }

  unfoldable pub generator_settings : Environment → GeneratorSettings
  generator_settings env = record {
    kafka_brokers = kafka_broker env ∷ [];
    kafka_topic = get_env env "KAFKA_TOPIC" "events.telecom";
    db_config = record {
      host = get_env env "POSTGRES_HOST" "localhost";
      port = get_env env "POSTGRES_PORT" "5432";
      user = get_env env "POSTGRES_USER" "app_user";
      password = get_env env "POSTGRES_PASSWORD" "app_password";
      db_name = get_env env "POSTGRES_DB" "network_events";
      ssl_mode = get_env env "POSTGRES_SSLMODE" "disable";
      max_open_conns = get_env_int_scanned env "POSTGRES_MAX_OPEN_CONNS" 10;
      max_idle_conns = get_env_int_scanned env "POSTGRES_MAX_IDLE_CONNS" 5;
      conn_max_lifetime = 5 * minute;
      conn_max_idle_time = 5 * minute;
    };
    load = record {
      total_events = get_env_int_scanned env "GENERATOR_TOTAL_EVENTS" 100_000;
      duplicate_events = get_env_int_scanned env "GENERATOR_DUPLICATE_EVENTS" 1000;
      user_count = get_env_int_scanned env "GENERATOR_USER_COUNT" 1000;
      batch_size = get_env_int_scanned env "GENERATOR_BATCH_SIZE" 100;
      workers_count = get_env_int_scanned env "GENERATOR_WORKERS" 4;
      max_verify_iterations = get_env_int_scanned env "GENERATOR_MAX_VERIFY_ITERATIONS" 60;
    };
    verify_interval = parse_duration (get_env env "GENERATOR_VERIFY_INTERVAL" "5s") (5 * second);
    verify_timeout = parse_duration (get_env env "GENERATOR_VERIFY_TIMEOUT" "5m") (5 * minute);
  }
