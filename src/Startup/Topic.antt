-- ===== src/Startup/Topic.antt =====
-- What makes the programs of cmd fail to start.
use network_actions_aggregat.Prelude.{
  ℕ, String, ◌≡◌, refl, inl, inr, false, Bool-cases, ◌==◌, string_eq,
}
use network_actions_aggregat.Entity.Errors.{Result, ok, ◌>>=◌}
use network_actions_aggregat.Kafka.{ConsumerConfig, new_consumer}
use network_actions_aggregat.Postgres.Connection.{Driver}
use network_actions_aggregat.Settings.{Environment, get_env, aggregator_settings, ingestor_settings}
use network_actions_aggregat.Startup.{
  aggregator_consumer, connect, start_aggregator, start_ingestor,
}

-- A setting with a default that is not empty is not empty.
get_env-default :
    (env : Environment) (key default : String)
    → (default == "") ≡ false
    → (get_env env key default == "") ≡ false
unfolding get_env
get_env-default env key default d = elim (Bool-cases (env key == "")) [
  | inl unset ↦ rw unset d
  | inr given ↦ rw given given
]

new_consumer-topic : (c : ConsumerConfig) → (c.topic == "") ≡ false → new_consumer c ≡ ok c
unfolding new_consumer
new_consumer-topic c h = rw h refl

module _ {Handle Pool : Type 0} (driver : Driver Handle Pool) (durations : String → Result ℕ) where
  -- In every environment the aggregator and the ingestor start exactly if the connection to the database
  -- can be made, with the error of it otherwise: their consumers always have a topic, so the check of
  -- `NewConsumer` never fails.
  pub start-connect :
      (env : Environment)
      → let a = aggregator_settings durations env in
        let i = ingestor_settings durations env in
        (start_aggregator driver durations env
          ≡ (connect driver durations a.db_config >>= λ db. ok (db, aggregator_consumer a)))
        × (start_ingestor driver durations env
            ≡ (connect driver durations i.db_config >>= λ db. ok (db, i.kafka_config)))
  unfolding start_aggregator start_ingestor aggregator_settings ingestor_settings
  start-connect env =
      let topic = get_env-default env "KAFKA_TOPIC" "events.telecom" refl in
      (
        rw (new_consumer-topic (aggregator_consumer (aggregator_settings durations env)) topic)
            refl,
        rw (new_consumer-topic (ingestor_settings durations env).kafka_config topic) refl,
      )
