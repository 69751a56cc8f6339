-- ===== src/Settings/Shared.antt =====
-- The settings that the programs of cmd share.
use network_actions_aggregat.Prelude.{
  ℕ, String, ◌≡◌, refl, sym, ap, ◌∙◌, ◌⊎◌, inl, inr, some, ◌==◌, string_eq, if◌then◌else◌,
}
use network_actions_aggregat.Entity.Errors.{Result}
use network_actions_aggregat.Postgres.Connection.{data_source}
use network_actions_aggregat.Settings.Numbers.{ℤ, atoi}
use network_actions_aggregat.Settings.Agree.{atoi-sscanf}
use network_actions_aggregat.Settings.{
  Environment, get_env_int, get_env_int_scanned, as_count, aggregator_settings, ingestor_settings,
  generator_settings,
}

-- A variable that is not set, or whose text `Atoi` reads.
abbrev pub HoldsNumber : Environment → String → Type 0
HoldsNumber env key = (env key ≡ "") ⊎ ((v : ℤ) × (atoi (env key) ≡ some v))

get_env_int-get_env_int_scanned :
    (env : Environment) (key : String) (default : ℕ)
    → HoldsNumber env key
    → get_env_int env key default ≡ get_env_int_scanned env key default
unfolding get_env_int get_env_int_scanned
get_env_int-get_env_int_scanned env key default (inl unset) = rw unset refl
get_env_int-get_env_int_scanned env key default (inr (v, h)) =
    ap (λ o. if env key == "" then default else as_count o default)
      (h ∙ sym (atoi-sscanf (env key) v h))

-- In one environment the three programs open the same data source, the same broker and the same topic; and
-- if the number of connections is not set or is one that `Atoi` reads, which is how the aggregator reads
-- it, the ingestor, which reads it by `Sscanf`, allows as many as the aggregator.
pub settings-Shared :
    (durations : String → Result ℕ) (env : Environment)
    → HoldsNumber env "POSTGRES_MAX_OPEN_CONNS"
    → let a = aggregator_settings durations env in
      let i = ingestor_settings durations env in
      let g = generator_settings durations env in
      ((data_source a.db_config ≡ data_source i.db_config)
        × (data_source i.db_config ≡ data_source g.db_config))
      × (((a.kafka_brokers ≡ i.kafka_config.brokers) × (a.kafka_brokers ≡ g.kafka_brokers))
          × (((a.kafka_topic ≡ i.kafka_config.topic) × (a.kafka_topic ≡ g.kafka_topic))
              × (a.db_config.max_open_conns ≡ i.db_config.max_open_conns)))
unfolding data_source aggregator_settings ingestor_settings generator_settings
settings-Shared durations env h = (
  (refl, refl),
  (
    (refl, refl),
    ((refl, refl), get_env_int-get_env_int_scanned env "POSTGRES_MAX_OPEN_CONNS" 25 h),
  ),
)
