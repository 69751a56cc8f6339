-- ===== src/Ingestor/Tables.antt =====
-- The program of cmd/ingestor/main.go over the repository of
-- internal/infrastructure/repository/postgres/event_repository.go.
use network_actions_aggregat.Prelude.{◌≡◌, sym, ◌∙◌, Bool, ◌||◌, false, none, List, [], ◌∷◌, arith}
use network_actions_aggregat.Entity.Errors.{Error}
use network_actions_aggregat.Package.{UuidPackage, TimePackage, JsonPackage}
use network_actions_aggregat.Message.{KafkaEventMessage}
use network_actions_aggregat.Models.{EventModel}
use network_actions_aggregat.Ingest.{Config, Worker}
use network_actions_aggregat.Ingest.Pool.Saved.{batch_of, merged}
use network_actions_aggregat.Pipeline.{valid}
use network_actions_aggregat.Postgres.Sql.{Gorm, SqlLaws, has_key}
use network_actions_aggregat.Postgres.{event_repository}
use network_actions_aggregat.Postgres.Events.{event_repository-IsAtomic}
use network_actions_aggregat.Postgres.KeyGrowth.{sends_key, key_growth, key_comm}
use network_actions_aggregat.Ingestor.{Ingestor, Reached}
use network_actions_aggregat.Ingestor.Stored.{run-stored}

-- Whether a worker holds an event with a key.
abbrev pub held_key : List Worker → EventModel → Bool
held_key [] m = false
held_key (w ∷ ws) m = sends_key (batch_of w) m || held_key ws m

module _ (uuid : UuidPackage) (times : TimePackage) (json : JsonPackage KafkaEventMessage)
    {Db : Type 0} (sql : Gorm Db) (laws : SqlLaws sql) (not_found : Error → Bool) (config : Config)
    (m : EventModel) where
  open laws use {event_rows}

  merged-held_key :
      (b : Bool) (ws : List Worker)
      → merged
          (event_repository sql not_found)
          config
          (event_repository-IsAtomic sql laws not_found)
          (key_growth sql laws not_found m)
          (key_comm sql laws not_found m)
          b
          ws
        ≡ (b || held_key ws m)
  merged-held_key b [] = ground arith
  merged-held_key b (w ∷ ws) = merged-held_key (b || sends_key (batch_of w) m) ws ∙ ground arith

  -- From the topic to `events_raw`, over a database that keeps its documented behaviour: as long as no worker
  -- returned an error, however the goroutines interleave, a key is in the table, with an event in the
  -- channel or with one in the batch of a worker exactly if it was in the table at the start or belongs to
  -- a valid event that the consumer sent. So no such event is lost, and nothing else is stored.
  pub run-keys :
      (db0 : Db) (p : Ingestor Db)
      → Reached uuid times json (event_repository sql not_found) config db0 p
      → p.pool.first_error ≡ none
      → ((has_key (event_rows p.pool.db) m || sends_key (valid p.feed.queue) m)
          || held_key p.pool.workers m)
        ≡ (has_key (event_rows db0) m || sends_key (valid p.feed.consumer.sent) m)
  run-keys db0 p r h =
      sym (
        merged-held_key (has_key (event_rows p.pool.db) m || sends_key (valid p.feed.queue) m)
          p.pool.workers)
      ∙ run-stored uuid times json (event_repository sql not_found) config
          (event_repository-IsAtomic sql laws not_found) (key_growth sql laws not_found m)
          (key_comm sql laws not_found m) db0 p r h
