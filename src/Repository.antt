-- ===== src/Repository.antt =====
-- internal/domain/repository: the two interfaces between the use cases and the storage, over the state
-- `Db` of the storage, and what a caller may rely on when it upserts an aggregate.
use network_actions_aggregat.Prelude.{
  ℕ, String, ◌&&◌, ◌≡◌, Option, none, some, List, ◌==◌, string_eq, list_eq, nat_eq, if◌then◌else◌,
}
use network_actions_aggregat.Clock.{Time}
use network_actions_aggregat.Clock.Text.{Text}
use network_actions_aggregat.Entity.{Event, EventType, Uuid}
use network_actions_aggregat.Entity.Errors.{Error, Result}
use network_actions_aggregat.Aggregation.{Totals, DayAggregation, MonthAggregation}
use network_actions_aggregat.Aggregation.Sums.{plus, wrap}

-- A `context.Context` by its `Err()` at the moment of the call.
abbrev pub Context : Type 0
Context = Option Error

-- A method that may change the storage returns its new state beside its error.
pub record EventRepository (Db : Type 0) : Type 0 where
  pub batch_insert : Context → List Event → Db → Db × Option Error
  pub get_user_events :
      Context → Uuid → Time → Time → ℕ → String → Db → Result (List Event × String)
  pub get_events_by_type : Context → EventType → Time → Time → ℕ → Db → Result (List Event)
  pub get_event_by_id : Context → Uuid → Time → Db → Result Event
  pub count_user_events : Context → Uuid → Time → Time → Db → Result ℕ
  pub get_by_event_ids : Context → List Uuid → Db → Result (List Event)
  pub get_by_time_range : Context → Time → Time → Db → Result (List Event)

pub record AggregationRepository (Db : Type 0) : Type 0 where
  pub upsert_day_aggregation : Context → Time → EventType → ℕ → ℕ → ℕ → ℕ → Db → Db × Option Error
  pub get_day_aggregations : Context → Time → Time → Db → Result (List DayAggregation)
  pub get_day_aggregations_by_type :
      Context → EventType → Time → Time → Db → Result (List DayAggregation)
  pub upsert_month_aggregation : Context → Time → EventType → ℕ → ℕ → ℕ → ℕ → Db → Db × Option Error
  pub get_month_aggregations : Context → Time → Time → Db → Result (List MonthAggregation)
  pub get_month_aggregations_by_type :
      Context → EventType → Time → Time → Db → Result (List MonthAggregation)

-- A call of an upsert.
abbrev pub Upsert : Type 0 → Type 0
Upsert Db = Context → Time → EventType → ℕ → ℕ → ℕ → ℕ → Db → Db × Option Error

-- The sums that a table of aggregates shows for a date and a type.
abbrev pub Cells : Type 0
Cells = Text → EventType → Totals

-- The cell of one date and type grows by the given sums, the others stay.
abbrev pub added : Cells → Text → EventType → Totals → Cells
added cells d t x k ty = if (d == k) && (t == ty) then wrap (plus (cells k ty) x) else cells k ty

-- An upsert adds to one cell of its own table, or fails and changes none.
-- `column` is the date under which a period is stored.
pub record IsUpsert {Db : Type 0} (upsert : Upsert Db) (column : Time → Text)
    (cells other : Db → Cells) : Type 0 where
  pub in_range : (db : Db) (k : Text) (y : EventType) → wrap (cells db k y) ≡ cells db k y
  pub done :
      (ctx : Context) (t : Time) (ty : EventType) (x : Totals) (db db' : Db)
      → upsert ctx t ty x.count_events x.sum_duration x.sum_bytes_up x.sum_bytes_down db
        ≡ (db', none)
      → (k : Text) (y : EventType)
      → (cells db' k y ≡ added (cells db) (column t) ty x k y) × (other db' k y ≡ other db k y)
  pub failed :
      (ctx : Context) (t : Time) (ty : EventType) (x : Totals) (db db' : Db) (e : Error)
      → upsert ctx t ty x.count_events x.sum_duration x.sum_bytes_up x.sum_bytes_down db
        ≡ (db', some e)
      → (k : Text) (y : EventType) → (cells db' k y ≡ cells db k y) × (other db' k y ≡ other db k y)

-- What the use cases rely on.
pub record AggregationLaws {Db : Type 0} (repo : AggregationRepository Db) : Type 0 where
  pub day_column : Time → Text
  pub month_column : Time → Text
  pub day_cells : Db → Cells
  pub month_cells : Db → Cells
  pub day_upsert : IsUpsert repo.upsert_day_aggregation day_column day_cells month_cells
  pub month_upsert : IsUpsert repo.upsert_month_aggregation month_column month_cells day_cells
