-- ===== src/Postgres.antt =====
-- internal/infrastructure/repository/postgres: the two repositories over GORM and PostgreSQL.
pub mod Connection
pub mod Sql
pub mod Keys
pub mod Events
pub mod KeyGrowth
pub mod Workers
pub mod Finds
pub mod Upserts
pub mod Periods
use network_actions_aggregat.Prelude.{
  ℕ, suc, String, Bool, if◌then◌else◌, Option, none, some, List, [], ◌∷◌, map,
}
use network_actions_aggregat.Clock.{Time, truncate_day, month_start}
use network_actions_aggregat.Entity.{Event, EventType, Uuid, validate}
use network_actions_aggregat.Entity.Errors.{
  Error, Result, ok, err, errorf, errorf_at, message, wrap_error, ◌>>=◌,
}
use network_actions_aggregat.Dict.{Dict}
use network_actions_aggregat.Aggregation.{DayAggregation, MonthAggregation, Totals}
use network_actions_aggregat.Models.{
  AggregationModel, EventModel, from_domain_event_batch, to_domain_event_batch, to_domain,
  to_domain_day_aggregation_batch, to_domain_month_aggregation_batch,
}
use network_actions_aggregat.Repository.{Context, EventRepository, AggregationRepository}
use Sql.{
  Gorm, OnConflict, Action, do_nothing, do_updates, Expr, column_plus, now, Condition, Range,
  type_is, started_from, started_to, started_is, user_is, id_is, id_in, period_from, period_to,
  period_type,
}

-- `if result.Error != nil { return fmt.Errorf("…: %w", result.Error) }; return nil`.
abbrev pub wrap_failure : {Db : Type 0} → String → Db × Option Error → Db × Option Error
wrap_failure text (db, none) = (db, none)
wrap_failure text (db, some e) = (db, some (errorf text e))

-- The validation loop of `BatchInsert`: the first invalid event, with its index.
unfoldable pub first_invalid : ℕ → List Event → Option Error
first_invalid i [] = none
first_invalid i (e ∷ es) =
    let rest = first_invalid (suc i) es in
    elim (validate e) [
      | some x ↦ some (errorf_at "invalid event at index %d: %w" i x)
      | none ↦ rest
    ]

abbrev pub on_event_key : OnConflict
on_event_key = record { columns = "event_id" ∷ "started_at" ∷ []; action = do_nothing }

-- The four sums of an `ON CONFLICT … DO UPDATE`, and the time.
abbrev pub increments : String → ℕ → ℕ → ℕ → ℕ → Action
increments table c d u w = do_updates (
    ("count_events", column_plus table "count_events" c)
    ∷ ("sum_duration", column_plus table "sum_duration" d)
    ∷ ("sum_bytes_up", column_plus table "sum_bytes_up" u)
    ∷ ("sum_bytes_down", column_plus table "sum_bytes_down" w)
    ∷ ("updated_at", now)
    ∷ [])

abbrev totals : ℕ → ℕ → ℕ → ℕ → Totals
totals c d u w = record { count_events = c; sum_duration = d; sum_bytes_up = u; sum_bytes_down = w }

-- `not_found` is the comparison with `gorm.ErrRecordNotFound`.
module _ {Db : Type 0} (sql : Gorm Db) (not_found : Error → Bool) where
  -- `BatchInsert`.
  unfoldable pub batch_insert : Context → List Event → Db → Db × Option Error
  batch_insert ctx [] db = (db, none)
  batch_insert ctx (e ∷ es) db = elim (first_invalid 0 (e ∷ es)) [
    | some x ↦ (db, some x)
    | none ↦
        wrap_failure "failed to batch insert events"
          (sql.create_events ctx on_event_key (from_domain_event_batch (e ∷ es)) db)
  ]

  -- `GetEventsByType`.
  unfoldable pub get_events_by_type :
      Context → EventType → Time → Time → ℕ → Db → Result (List Event)
  get_events_by_type ctx ty from to limit db = do
    models ← wrap_error "failed to get events by type" (
        sql.find_events ctx (type_is ty ∷ started_from from ∷ started_to to ∷ [])
          (some "started_at DESC") (some limit) db)
    ok (to_domain_event_batch models)

  -- The error of `GetEventByID`: a missing record has a text of its own.
  abbrev pub by_id_error : Error → Error
  by_id_error e =
      if not_found e then message "event not found" else errorf "failed to get event by id" e

  -- `GetEventByID`.
  unfoldable pub get_event_by_id : Context → Uuid → Time → Db → Result Event
  get_event_by_id ctx id start db =
      elim (sql.first_event ctx (id_is id ∷ started_is start ∷ []) db) [
        | ok m ↦ ok (to_domain m)
        | err e ↦ err (by_id_error e)
      ]

  -- `CountUserEvents`.
  unfoldable pub count_user_events : Context → Uuid → Time → Time → Db → Result ℕ
  count_user_events ctx user from to db =
      wrap_error "failed to count user events"
        (sql.count_events ctx (user_is user ∷ started_from from ∷ started_to to ∷ []) db)

  -- `GetByEventIDs`.
  unfoldable pub get_by_event_ids : Context → List Uuid → Db → Result (List Event)
  get_by_event_ids ctx [] db = ok []
  get_by_event_ids ctx (id ∷ ids) db = do
    models ←
        wrap_error "failed to get events by ids"
          (sql.find_events ctx (id_in (id ∷ ids) ∷ []) none none db)
    ok (to_domain_event_batch models)

  -- `GetByTimeRange`.
  unfoldable pub get_by_time_range : Context → Time → Time → Db → Result (List Event)
  get_by_time_range ctx from to db = do
    models ← wrap_error "failed to get events by time range" (
        sql.find_events ctx (started_from from ∷ started_to to ∷ []) (some "started_at ASC") none
          db)
    ok (to_domain_event_batch models)

  -- `GetUserEvents` is not implemented.
  unfoldable pub get_user_events :
      Context → Uuid → Time → Time → ℕ → String → Db → Result (List Event × String)
  get_user_events ctx user from to limit cursor db = err (message "not implemented yet")

  -- `NewEventRepository`.
  abbrev pub event_repository : EventRepository Db
  event_repository = record {
    batch_insert = batch_insert;
    get_user_events = get_user_events;
    get_events_by_type = get_events_by_type;
    get_event_by_id = get_event_by_id;
    count_user_events = count_user_events;
    get_by_event_ids = get_by_event_ids;
    get_by_time_range = get_by_time_range;
  }

-- `model` of the two upserts.
abbrev model : Time → EventType → ℕ → ℕ → ℕ → ℕ → Time → AggregationModel
model period ty c d u w updated = record {
  period = period;
  event_type = ty;
  totals = totals c d u w;
  updated_at = updated;
}

-- `clock` is the reading of `time.Now()`.
module _ {Db : Type 0} (sql : Gorm Db) (clock : Time) where
  -- `UpsertDayAggregation`.
  unfoldable pub upsert_day_aggregation :
      Context → Time → EventType → ℕ → ℕ → ℕ → ℕ → Db → Db × Option Error
  upsert_day_aggregation ctx day ty c d u w db = wrap_failure "failed to upsert day aggregation" (
      sql.create_day ctx
        (record { columns = "day" ∷ "type" ∷ []; action = increments "agg_day" c d u w })
        (model (truncate_day day) ty c d u w clock) db)

  -- `UpsertMonthAggregation`.
  unfoldable pub upsert_month_aggregation :
      Context → Time → EventType → ℕ → ℕ → ℕ → ℕ → Db → Db × Option Error
  upsert_month_aggregation ctx month ty c d u w db =
      wrap_failure "failed to upsert month aggregation" (
        sql.create_month ctx
          (record { columns = "month" ∷ "type" ∷ []; action = increments "agg_month" c d u w })
          (model (month_start month) ty c d u w clock) db)

  -- `GetDayAggregations`.
  unfoldable pub get_day_aggregations : Context → Time → Time → Db → Result (List DayAggregation)
  get_day_aggregations ctx from to db = do
    models ← wrap_error "failed to get day aggregations" (
        sql.find_days ctx (period_from (truncate_day from) ∷ period_to (truncate_day to) ∷ [])
          "day, type" db)
    ok (to_domain_day_aggregation_batch models)

  -- `GetDayAggregationsByType`.
  unfoldable pub get_day_aggregations_by_type :
      Context → EventType → Time → Time → Db → Result (List DayAggregation)
  get_day_aggregations_by_type ctx ty from to db = do
    models ← wrap_error "failed to get day aggregations by type" (
        sql.find_days ctx
          (period_from (truncate_day from) ∷ period_to (truncate_day to) ∷ period_type ty ∷ [])
          "day" db)
    ok (to_domain_day_aggregation_batch models)

  -- `GetMonthAggregations`.
  unfoldable pub get_month_aggregations :
      Context → Time → Time → Db → Result (List MonthAggregation)
  get_month_aggregations ctx from to db = do
    models ← wrap_error "failed to get month aggregations" (
        sql.find_months ctx (period_from (month_start from) ∷ period_to (month_start to) ∷ [])
          "month, type" db)
    ok (to_domain_month_aggregation_batch models)

  -- `GetMonthAggregationsByType`.
  unfoldable pub get_month_aggregations_by_type :
      Context → EventType → Time → Time → Db → Result (List MonthAggregation)
  get_month_aggregations_by_type ctx ty from to db = do
    models ← wrap_error "failed to get month aggregations by type" (
        sql.find_months ctx
          (period_from (month_start from) ∷ period_to (month_start to) ∷ period_type ty ∷ [])
          "month" db)
    ok (to_domain_month_aggregation_batch models)

  -- `NewAggregationRepository`.
  abbrev pub aggregation_repository : AggregationRepository Db
  aggregation_repository = record {
    upsert_day_aggregation = upsert_day_aggregation;
    get_day_aggregations = get_day_aggregations;
    get_day_aggregations_by_type = get_day_aggregations_by_type;
    upsert_month_aggregation = upsert_month_aggregation;
    get_month_aggregations = get_month_aggregations;
    get_month_aggregations_by_type = get_month_aggregations_by_type;
  }
