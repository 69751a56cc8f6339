-- ===== src/Aggregation.antt =====
-- internal/domain/entity/aggregation.go, and the sums that every aggregate carries (`aggData` of
-- cmd/generator/verifier.go) with the loop body that adds one event to them.
pub mod Sums
use network_actions_aggregat.Prelude.{
  ℕ, ◌+◌, ◌%◌, Bool, String, ◌||◌, Option, none, some, List, [], ◌∷◌, ◌==◌, string_eq,
}
use network_actions_aggregat.Clock.{Time}
use network_actions_aggregat.Entity.{Event, EventType}

abbrev pub int64_mod : ℕ
int64_mod = 18_446_744_073_709_551_616

-- `a + b` on `int64`, by the bits.
abbrev pub add64 : ℕ → ℕ → ℕ
add64 a b = (a + b) % int64_mod

pub record Totals : Type 0 where
  pub count_events : ℕ
  pub sum_duration : ℕ
  pub sum_bytes_up : ℕ
  pub sum_bytes_down : ℕ

abbrev pub no_totals : Totals
no_totals = record { count_events = 0; sum_duration = 0; sum_bytes_up = 0; sum_bytes_down = 0 }

unfoldable pub add_duration : ℕ → Option ℕ → ℕ
add_duration s none = s
add_duration s (some d) = add64 s d

-- `updateAggData`.
unfoldable pub update_agg_data : Totals → Event → Totals
unfolding add_duration
update_agg_data t e = record {
  count_events = add64 t.count_events 1;
  sum_duration = add_duration t.sum_duration e.duration_sec;
  sum_bytes_up = add64 t.sum_bytes_up e.bytes_up;
  sum_bytes_down = add64 t.sum_bytes_down e.bytes_down;
}

-- A row of aggregates for a period, the day or the first day of the month.
pub record PeriodAggregation : Type 0 where
  pub period : Time
  pub event_type : EventType
  pub totals : Totals
  pub open totals use *
  pub updated_at : Time

abbrev pub DayAggregation : Type 0
DayAggregation = PeriodAggregation

abbrev pub MonthAggregation : Type 0
MonthAggregation = PeriodAggregation

-- `type Granularity string`.
abbrev pub Granularity : Type 0
Granularity = String

abbrev pub granularity_day : Granularity
granularity_day = "DAY"

abbrev pub granularity_month : Granularity
granularity_month = "MONTH"

-- `Granularity.IsValid`.
unfoldable pub is_valid : Granularity → Bool
is_valid g = g == granularity_day || g == granularity_month
