-- ===== src/Postgres/Workers.antt =====
-- The loop of an ingest worker over the event repository.
use network_actions_aggregat.Prelude.{◌≡◌, Bool, none, some, List}
use network_actions_aggregat.Entity.{Event}
use network_actions_aggregat.Entity.Errors.{Error}
use network_actions_aggregat.Ingest.{Config, Signal, Worker, working, finished, worker}
use network_actions_aggregat.Ingest.Delivery.{Accounts, taken, worker-Accounts}
use network_actions_aggregat.Models.{EventModel}
use network_actions_aggregat.Postgres.Sql.{Gorm, SqlLaws}
use network_actions_aggregat.Postgres.{event_repository}
use network_actions_aggregat.Postgres.Keys.{with_batch}
use network_actions_aggregat.Postgres.Events.{event_repository-IsAtomic, event_growth}

module _ {Db : Type 0} (sql : Gorm Db) (laws : SqlLaws sql) (not_found : Error → Bool)
    (config : Config) where
  open laws use {event_rows}

  Accounts-finished :
      (rows : List EventModel) (es : List Event) (s : Worker × Db)
      → Accounts
          (event_repository sql not_found)
          config
          (event_repository-IsAtomic sql laws not_found)
          (event_growth sql laws not_found)
          rows
          es
          s
      → s.0 ≡ finished none
      → event_rows s.1 ≡ with_batch rows es
  unfolding event_growth
  Accounts-finished rows es (working batch, db) h f = absurd (cc)
  Accounts-finished rows es (finished none, db) h f = h
  Accounts-finished rows es (finished (some e), db) h f = absurd (cc)

  -- Over a database that keeps its documented behaviour, a worker that returns nil has stored every
  -- valid event that it received before its channel was closed: `events_raw` is as if these were
  -- inserted once, in the order of arrival, leaving out those whose key is there; however they were cut
  -- into batches and however many attempts failed.
  pub worker-stores :
      (xs : List Signal) (db : Db)
      → (worker (event_repository sql not_found) config xs db).0 ≡ finished none
      → event_rows (worker (event_repository sql not_found) config xs db).1
        ≡ with_batch (event_rows db) (taken xs)
  unfolding event_growth
  worker-stores xs db h =
      Accounts-finished (event_rows db) (taken xs)
        (worker (event_repository sql not_found) config xs db)
        (worker-Accounts (event_repository sql not_found) config
          (event_repository-IsAtomic sql laws not_found) (event_growth sql laws not_found) xs db)
        h
