-- ===== src/Buffer.antt =====
-- The in-memory buffers of internal/usecase/aggregate_events.go: for each period key a map from event
-- types to running sums. A day and a month buffer have one shape, so one definition serves both.
pub mod Reads
pub mod Streams
pub mod Dates
use network_actions_aggregat.Prelude.{
  Bool, ◌&&◌, Option, none, some, List, [], ◌∷◌, ◌++◌, ◌==◌, string_eq, list_eq, nat_eq, foldl, map,
  if◌then◌else◌,
}
use network_actions_aggregat.Dict.{Dict, lookup, insert}
use network_actions_aggregat.Clock.{Time, truncate_day, month_start, date_of}
use network_actions_aggregat.Clock.Text.{Text, day_text, month_text}
use network_actions_aggregat.Entity.{Event, EventType}
use network_actions_aggregat.Aggregation.{Totals, no_totals, update_agg_data}

-- The structs `dayAggregate` and `monthAggregate`.
pub record Aggregate : Type 0 where
  pub period : Time
  pub event_type : EventType
  pub totals : Totals

abbrev pub Types : Type 0
Types = Dict EventType Aggregate

abbrev pub Buffer : Type 0
Buffer = Dict Text Types

-- `make(map[…])` for a missing key.
abbrev pub types_or_new : Option Types → Types
types_or_new none = []
types_or_new (some m) = m

-- `&dayAggregate{day: day, eventType: event.Type}` for a missing type.
abbrev pub aggregate_or_new : Time → EventType → Option Aggregate → Aggregate
aggregate_or_new p ty none = record { period = p; event_type = ty; totals = no_totals }
aggregate_or_new p ty (some a) = a

-- Add an event to the sums of its type.
unfoldable pub accumulate : Time → Event → Types → Types
accumulate p e types =
    let agg = aggregate_or_new p e.event_type (lookup e.event_type types) in
    insert e.event_type (record agg { totals = update_agg_data agg.totals e }) types

unfoldable pub add_event : Text → Time → Event → Buffer → Buffer
add_event key p e b = insert key (accumulate p e (types_or_new (lookup key b))) b

-- `event.StartedAt.Truncate(24 * time.Hour)` and its text.
abbrev pub day_of : Event → Time
day_of e = truncate_day e.started_at

abbrev pub day_key : Time → Text
day_key t = day_text (date_of t)

-- The first of the event's month and its text.
abbrev pub month_of : Event → Time
month_of e = month_start e.started_at

abbrev pub month_key : Time → Text
month_key t = month_text (date_of t)

unfoldable pub add_day : Buffer → Event → Buffer
add_day b e = add_event (day_key (day_of e)) (day_of e) e b

unfoldable pub add_month : Buffer → Event → Buffer
add_month b e = add_event (month_key (month_of e)) (month_of e) e b

-- All the aggregates of a buffer, as the two nested `range` loops of the flush meet them.
unfoldable pub aggregates : Buffer → List Aggregate
aggregates [] = []
aggregates ((k, types) ∷ b) = map (λ p. p.1) types ++ aggregates b

-- What a buffer holds for a key and a type.
unfoldable pub totals_of : Option Aggregate → Totals
totals_of none = no_totals
totals_of (some a) = a.totals

abbrev pub totals_at : Text → EventType → Buffer → Totals
totals_at key ty b = totals_of (lookup ty (types_or_new (lookup key b)))
