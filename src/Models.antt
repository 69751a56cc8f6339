-- ===== src/Models.antt =====
-- internal/infrastructure/repository/postgres/gorm_models: the rows of the three tables and the
-- conversions between rows and domain values.
use network_actions_aggregat.Prelude.{
  ℕ, String, ◌≡◌, refl, Option, none, some, List, [], ◌∷◌, map, arith,
}
use network_actions_aggregat.Clock.{Time}
use network_actions_aggregat.Entity.{Event, Uuid}
use network_actions_aggregat.Entity.Json.{Meta}
use network_actions_aggregat.Aggregation.{
  Totals, DayAggregation, MonthAggregation, PeriodAggregation,
}

-- A row of `events_raw`. `meta` is never the nil map after `FromDomain`.
pub record EventModel : Type 0 where
  pub event_id : Uuid
  pub source_id : Uuid
  pub user_id : Uuid
  pub phone : String
  pub event_type : String
  pub started_at : Time
  pub ended_at : Option Time
  pub duration_sec : Option ℕ
  pub bytes_up : ℕ
  pub bytes_down : ℕ
  pub meta : Meta
  pub created_at : Time

-- `if e.Meta != nil { … } else { make(JSONB) }`.
abbrev pub meta_or_empty : Meta → Meta
meta_or_empty none = some []
meta_or_empty (some m) = some m

-- `Event.FromDomain`.
unfoldable pub from_domain : Event → EventModel
from_domain e = record {
  event_id = e.event_id;
  source_id = e.source_id;
  user_id = e.user_id;
  phone = e.phone;
  event_type = e.event_type;
  started_at = e.started_at;
  ended_at = e.ended_at;
  duration_sec = e.duration_sec;
  bytes_up = e.bytes_up;
  bytes_down = e.bytes_down;
  meta = meta_or_empty e.meta;
  created_at = e.created_at;
}

-- `Event.ToDomain`.
unfoldable pub to_domain : EventModel → Event
to_domain m = record {
  event_id = m.event_id;
  source_id = m.source_id;
  user_id = m.user_id;
  phone = m.phone;
  event_type = m.event_type;
  started_at = m.started_at;
  ended_at = m.ended_at;
  duration_sec = m.duration_sec;
  bytes_up = m.bytes_up;
  bytes_down = m.bytes_down;
  meta = m.meta;
  created_at = m.created_at;
}

-- `FromDomainEventBatch` and `ToDomainEventBatch`.
unfoldable pub from_domain_event_batch : List Event → List EventModel
from_domain_event_batch = map from_domain

unfoldable pub to_domain_event_batch : List EventModel → List Event
to_domain_event_batch = map to_domain

-- A row of `agg_day` or `agg_month`: `period` is the column `day` or `month`.
pub record AggregationModel : Type 0 where
  pub period : Time
  pub event_type : String
  pub totals : Totals
  pub updated_at : Time

-- `DayAggregation.ToDomain`, and `MonthAggregation.ToDomain` with its field names.
unfoldable pub aggregation_to_domain : AggregationModel → PeriodAggregation
aggregation_to_domain m = record {
  period = m.period;
  event_type = m.event_type;
  totals = m.totals;
  updated_at = m.updated_at;
}

-- `DayAggregation.FromDomain`, and `MonthAggregation.FromDomain`.
unfoldable pub aggregation_from_domain : PeriodAggregation → AggregationModel
aggregation_from_domain d = record {
  period = d.period;
  event_type = d.event_type;
  totals = d.totals;
  updated_at = d.updated_at;
}

unfoldable pub to_domain_day_aggregation_batch : List AggregationModel → List DayAggregation
to_domain_day_aggregation_batch = map aggregation_to_domain

unfoldable pub to_domain_month_aggregation_batch : List AggregationModel → List MonthAggregation
to_domain_month_aggregation_batch = map aggregation_to_domain

-- An event that is written and read back is the same but for a nil `Meta`, which comes back empty.
pub to_domain-from_domain :
    (e : Event) → to_domain (from_domain e) ≡ record e { meta = meta_or_empty e.meta }
unfolding to_domain from_domain
to_domain-from_domain e = refl

-- A batch of events that is written to rows and read back is the same, event by event and in order, but
-- for a nil `Meta`, which comes back empty.
pub to_domain_event_batch-from_domain_event_batch :
    (es : List Event)
    → to_domain_event_batch (from_domain_event_batch es)
      ≡ map {A = Event} {B = Event} (λ e. record e { meta = meta_or_empty e.meta }) es
unfolding to_domain_event_batch from_domain_event_batch to_domain from_domain
to_domain_event_batch-from_domain_event_batch [] = refl
to_domain_event_batch-from_domain_event_batch (e ∷ es) =
    ground (arith, to_domain_event_batch-from_domain_event_batch es)
