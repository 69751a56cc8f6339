-- ===== src/Examples/Events.antt =====
-- The theorems on events, batches and rows at concrete batches and a concrete database.
use mathlib.Core.List.{Perm}
use network_actions_aggregat.Prelude.{
  ◌≡◌, ◌↔◌, ◌<◌, refl, ℕ, List, [], ◌∷◌, none, some, Bool, false, All, select,
}
use network_actions_aggregat.Clock.{truncate_day, day_nanos, add}
use network_actions_aggregat.Clock
use network_actions_aggregat.Entity.{Event, validate, is_valid, has_duration, ends_early}
use network_actions_aggregat.Entity.Errors.{Error}
use network_actions_aggregat.Entity.Validation.{IsWellFormed, validate_iff}
use network_actions_aggregat.Repository.{IsUpsert, Context}
use network_actions_aggregat.Models.{from_domain, from_domain_event_batch, to_domain_event_batch}
use network_actions_aggregat.Ingest.{
  Config, Contexts, Signal, Worker, finished, worker_from, round, take_event, save_rest, retry_loop,
  closed, received, worker, save_batch_with_retry,
}
use network_actions_aggregat.Ingest.Retry.{attempt, save_batch_with_retry_iff}
use network_actions_aggregat.Ingest.Delivery.{taken}
use network_actions_aggregat.Postgres.Sql.{insert_missing, hold, started_from, started_to}
use network_actions_aggregat.Postgres.{
  event_repository, batch_insert, get_by_time_range, upsert_day_aggregation,
  upsert_month_aggregation, first_invalid,
}
use network_actions_aggregat.Postgres.Upserts.{cells_of, upserts-IsUpsert}
use network_actions_aggregat.Postgres.Keys.{with_batch, HasKeys, HasDistinctKeys}
use network_actions_aggregat.Postgres.Events.{
  batch_insert-again, batch_insert_lem, event_repository-IsAtomic, get_by_time_range_lem,
}
use network_actions_aggregat.Postgres.Workers.{worker-stores}
use network_actions_aggregat.Examples.Storage.{Tables, no_tables, sql, laws, date_text, read}
use network_actions_aggregat.Examples.Values.{noon, call}

abbrev not_found : Error → Bool
not_found e = false

abbrev batch : List Event
batch = call 1 7 60 ∷ call 2 7 30 ∷ []

validate_iff_example : (validate (call 1 7 60) ≡ none) ↔ IsWellFormed (call 1 7 60)
validate_iff_example = validate_iff (call 1 7 60)

abbrev stored : Tables
stored = (batch_insert sql not_found none batch no_tables).0

batch_inserted : batch_insert sql not_found none batch no_tables ≡ (stored, none)
unfolding batch_insert first_invalid validate is_valid has_duration ends_early
batch_inserted = refl

batch_inserted_again : batch_insert sql not_found none batch stored ≡ (stored, none)
unfolding batch_insert first_invalid validate is_valid has_duration ends_early insert_missing
    from_domain_event_batch from_domain
batch_inserted_again = refl

batch_insert-again_example :
    (stored.events ≡ stored.events)
    × (HasKeys stored.events (from_domain_event_batch batch) × HasDistinctKeys stored.events)
unfolding laws
batch_insert-again_example =
    batch_insert-again sql laws not_found none none batch no_tables stored stored tt batch_inserted
      batch_inserted_again

batch_insert_lem_example :
    All (λ e. validate e ≡ none) batch × (stored.events ≡ with_batch [] batch)
unfolding laws
batch_insert_lem_example =
    batch_insert_lem sql laws not_found none batch no_tables stored batch_inserted

abbrev from_seven : List Event
from_seven =
    to_domain_event_batch (
      select (hold (started_from (noon 7) ∷ started_to (add (noon 7) day_nanos) ∷ []))
        stored.events)

get_by_time_range_lem_example : Perm from_seven (
    to_domain_event_batch (
      select
        (hold (started_from (noon 7) ∷ started_to (add (noon 7) day_nanos) ∷ []))
        stored.events))
unfolding laws get_by_time_range
get_by_time_range_lem_example =
    get_by_time_range_lem sql laws not_found none (noon 7) (add (noon 7) day_nanos) stored
      from_seven refl

upserts-IsUpsert_example :
    IsUpsert
      (upsert_day_aggregation sql (noon 9))
      (λ t. date_text (truncate_day t))
      (cells_of (λ (db : Tables). read db.days))
      (cells_of (λ (db : Tables). read db.months))
    × IsUpsert
        (upsert_month_aggregation sql (noon 9))
        (λ t. date_text (Clock.month_start t))
        (cells_of (λ (db : Tables). read db.months))
        (cells_of (λ (db : Tables). read db.days))
unfolding laws
upserts-IsUpsert_example = upserts-IsUpsert sql laws (noon 9)

abbrev config : Config
config = record {
  batch_size = 2;
  batch_timeout = 1_000_000_000;
  workers_count = 1;
  retry_attempts = 3;
  retry_delay = 1_000_000_000;
}

-- The first call of a save fails, the others do not.
abbrev later : ℕ → Context
later ℕ.zero = some (Error.external 1)
later (ℕ.suc n) = none

abbrev contexts : Contexts
contexts = record { waits = λ n. none; calls = later }

save_batch_with_retry_iff_example :
    let r =
      save_batch_with_retry (event_repository sql not_found) config contexts batch no_tables in
    ((r.1 ≡ none) ↔ (
      (m : ℕ) × (m < 3)
      × ((attempt
            (event_repository sql not_found)
            config
            contexts
            batch
            (event_repository-IsAtomic sql laws not_found)
            no_tables
            m).1
          ≡ none)))
    × ((x : Error) → r.1 ≡ some x → r.0 ≡ no_tables)
save_batch_with_retry_iff_example =
    save_batch_with_retry_iff (event_repository sql not_found) config contexts batch
      (event_repository-IsAtomic sql laws not_found) no_tables (λ i. refl)

abbrev signals : List Signal
signals =
    received (call 1 7 60) contexts
    ∷ received (call 0 7 60) contexts
    ∷ received (call 2 7 30) contexts
    ∷ received (call 3 7 10) contexts
    ∷ closed contexts
    ∷ []

abbrev last : Worker × Tables
last = worker (event_repository sql not_found) config signals no_tables

last-finished : last.0 ≡ finished none
unfolding worker worker_from round take_event save_rest save_batch_with_retry retry_loop
    batch_insert first_invalid validate is_valid has_duration ends_early
last-finished = refl

worker-stores_example : last.1.events ≡ with_batch [] (taken signals)
unfolding laws
worker-stores_example = worker-stores sql laws not_found config signals no_tables last-finished
