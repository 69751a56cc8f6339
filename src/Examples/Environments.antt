-- ===== src/Examples/Environments.antt =====
-- The theorem on the settings, in an environment with a broker and a number of connections.
use network_actions_aggregat.Prelude.{ℕ, String, ◌≡◌, refl, inr, ◌==◌, string_eq, if◌then◌else◌}
use network_actions_aggregat.Entity.Errors.{Result, err, message}
use network_actions_aggregat.Postgres.Connection.{data_source}
use network_actions_aggregat.Settings.Numbers.{pos, atoi, digits_value}
use network_actions_aggregat.Settings.{
  Environment, aggregator_settings, ingestor_settings, generator_settings,
}
use network_actions_aggregat.Settings.Shared.{HoldsNumber, settings-Shared}

abbrev environment : Environment
environment key =
    if key == "POSTGRES_MAX_OPEN_CONNS" then "12" else if key == "KAFKA_HOST" then "broker" else ""

abbrev durations : String → Result ℕ
durations text = err (message "time: invalid duration")

connections-HoldsNumber : HoldsNumber environment "POSTGRES_MAX_OPEN_CONNS"
unfolding atoi digits_value
connections-HoldsNumber = inr (pos 12, refl)

settings-Shared_example :
    let a = aggregator_settings durations environment in
    let i = ingestor_settings durations environment in
    let g = generator_settings durations environment in
    ((data_source a.db_config ≡ data_source i.db_config)
      × (data_source i.db_config ≡ data_source g.db_config))
    × (((a.kafka_brokers ≡ i.kafka_config.brokers) × (a.kafka_brokers ≡ g.kafka_brokers))
        × (((a.kafka_topic ≡ i.kafka_config.topic) × (a.kafka_topic ≡ g.kafka_topic))
            × (a.db_config.max_open_conns ≡ i.db_config.max_open_conns)))
settings-Shared_example = settings-Shared durations environment connections-HoldsNumber
