-- ===== src/Message/Roundtrip.antt =====
-- An event that is written as a message and read back, and what the aggregates make of it.
use network_actions_aggregat.Prelude.{
  ◌≡◌, refl, ap, ◌∙◌, ◌-◌, ◌/◌, ◌%◌, ℕ, Option, none, some, List, [], ◌∷◌, map, arith,
}
use network_actions_aggregat.Clock.{
  Time, Zone, east, west, second, day_nanos, to_local, truncate_day, month_start, date_of,
}
use network_actions_aggregat.Entity.{Event}
use network_actions_aggregat.Entity.Errors.{ok}
use network_actions_aggregat.Aggregation.{Totals, update_agg_data}
use network_actions_aggregat.Buffer.{day_of, month_of, day_key, month_key}
use network_actions_aggregat.Verifier.{AggMap, expect, expect_all, calculate_expected_aggregations}
use network_actions_aggregat.Package.{
  UuidPackage, ReadsBack, TimePackage, ReadsSeconds, IsWritable, seconds,
}
use network_actions_aggregat.Message.{
  parse_ended_at, format_ended_at, omit_empty, omitted, to_event, event_to_message,
}

abbrev pub WritableEnd : Option Time → Type 0
WritableEnd none = Unit
WritableEnd (some t) = IsWritable t

-- The times of an event fit the layout.
pub record HasWritableTimes (e : Event) : Type 0 where
  pub start : IsWritable e.started_at
  pub ending : WritableEnd e.ended_at

abbrev pub end_seconds : Option Time → Option Time
end_seconds none = none
end_seconds (some t) = some (seconds t)

-- An event as the other side of Kafka has it.
abbrev pub received : Time → Event → Event
received now e = record e {
  started_at = seconds e.started_at;
  ended_at = end_seconds e.ended_at;
  meta = omit_empty e.meta;
  created_at = now;
}

module _ (uuid : UuidPackage) (times : TimePackage) (ids : ReadsBack uuid)
    (reads : ReadsSeconds times) where
  parse_ended_at-format :
      (o : Option Time)
      → WritableEnd o
      → parse_ended_at times (format_ended_at times o) ≡ ok (end_seconds o)
  parse_ended_at-format none w = refl
  parse_ended_at-format (some t) w = rw (reads t w) refl

  -- A message that `eventToMessage` wrote and JSON carried is read by `ToEvent` as the event that was
  -- sent, with its times cut to whole seconds, an empty `Meta` as nil and the new time of creation. The
  -- ids' texts are readable back, and the times fit RFC 3339.
  pub to_event-event_to_message :
      (now : Time) (e : Event)
      → HasWritableTimes e
      → to_event uuid times now (omitted (event_to_message uuid times e)) ≡ ok (received now e)
  unfolding to_event event_to_message
  to_event-event_to_message now e w =
      rw
        (
          ids e.event_id,
          ids e.source_id,
          ids e.user_id,
          reads e.started_at w.start,
          parse_ended_at-format e.ended_at w.ending,
        )
        refl

-- Days and months do not see the fraction of a second.
truncate_day-seconds : (t : Time) → truncate_day (seconds t) ≡ truncate_day t
unfolding truncate_day
truncate_day-seconds t = ap (λ n. record t { nanos = n }) (day_start t.nanos)
  where
    day_start : (n : ℕ) → (n - n % second) - (n - n % second) % day_nanos ≡ n - n % day_nanos
    day_start n = omega arith

local_day : (z : Zone) (n : ℕ) → to_local z (n - n % second) / day_nanos ≡ to_local z n / day_nanos
local_day (east s) n = omega arith
local_day (west s) n = omega arith

month_start-seconds : (t : Time) → month_start (seconds t) ≡ month_start t
unfolding month_start date_of
month_start-seconds t = rw (local_day t.zone t.nanos) refl

update_agg_data-received :
    (now : Time) (e : Event) (t : Totals) → update_agg_data t (received now e) ≡ update_agg_data t e
unfolding update_agg_data
update_agg_data-received now e t = refl

expect_day-received :
    (now : Time) (e : Event) (m : AggMap)
    → expect (day_key (day_of (received now e))) (received now e) m
      ≡ expect (day_key (day_of e)) e m
unfolding expect update_agg_data
expect_day-received now e m = ap (λ d. expect (day_key d) e m) (truncate_day-seconds e.started_at)

expect_month-received :
    (now : Time) (e : Event) (m : AggMap)
    → expect (month_key (month_of (received now e))) (received now e) m
      ≡ expect (month_key (month_of e)) e m
unfolding expect update_agg_data
expect_month-received now e m =
    ap (λ d. expect (month_key d) e m) (month_start-seconds e.started_at)

-- Events with the times of their creation on the other side.
abbrev pub sent_events : List (Time × Event) → List Event
sent_events = map (λ p. p.1)

abbrev pub received_events : List (Time × Event) → List Event
received_events = map (λ p. received p.0 p.1)

expect_all-received :
    (xs : List (Time × Event)) (days months : AggMap)
    → expect_all (received_events xs) (days, months) ≡ expect_all (sent_events xs) (days, months)
unfolding expect_all
expect_all-received [] days months = refl
expect_all-received ((now, e) ∷ xs) days months =
    expect_all-received xs _ _
    ∙ ap (λ m. expect_all (sent_events xs) m)
        (λ i. (expect_day-received now e days i, expect_month-received now e months i))

-- The way through Kafka changes no aggregate: what the verifier expects of the events that were sent is
-- what it would expect of the events as they are received.
pub calculate_expected_aggregations-received :
    (xs : List (Time × Event))
    → calculate_expected_aggregations (received_events xs)
      ≡ calculate_expected_aggregations (sent_events xs)
unfolding calculate_expected_aggregations
calculate_expected_aggregations-received xs = expect_all-received xs [] []
