-- ===== src/Examples/Deliveries.antt =====
-- The theorems on the program of cmd/aggregator/main.go, at a call that is received, counted and stored.
use network_actions_aggregat.Prelude.{◌≡◌, refl, ap, none, [], ◌∷◌, select, arith, All}
use network_actions_aggregat.Dict.{lookup, insert}
use network_actions_aggregat.Entity.{event_type_call_in}
use network_actions_aggregat.Aggregation.{update_agg_data, add_duration}
use network_actions_aggregat.Aggregation.Sums.{plus, wrap, sum_of}
use network_actions_aggregat.Buffer.{aggregates, add_day, add_month, add_event, accumulate}
use network_actions_aggregat.Buffer.Streams.{is_at, event_day, event_month}
use network_actions_aggregat.Kafka.Feed.{new_feed, after_parse, fetch, send}
use network_actions_aggregat.Aggregator.{
  new, process_event, is_duplicate, mark_processed, is_late_event, mark_dirty, add_to_buffer,
}
use network_actions_aggregat.Aggregator.System.{
  System, Step, IsInternal, initial, after_event, swap, put_day, put_month, end,
}
use network_actions_aggregat.Service.{
  Service, new_service, consume, receive, internal, act, Reached, here, next,
}
use network_actions_aggregat.Service.Served.{IsServed, Picks, run-IsServed}
use network_actions_aggregat.Service.Stored.{IsQuiet, run-quiet}
use network_actions_aggregat.Buffer
use network_actions_aggregat.Clock.{date_of, midnight, month_start, zero_nanos}
use network_actions_aggregat.Clock.Civil.{
  civil, year_of, month_of, days_before, days_before_year, days_before_month,
}
use network_actions_aggregat.Buffer.Dates.{IsDated, month_date}
use network_actions_aggregat.Postgres.{upsert_day_aggregation, upsert_month_aggregation}
use network_actions_aggregat.Examples.Storage.{Tables, no_tables}
use network_actions_aggregat.Examples.Tables.{
  repository, repository_laws, events, days_dated, months_dated,
}
use network_actions_aggregat.Examples.Values.{uuid, noon, config}
use network_actions_aggregat.Examples.Messages.{times, json}
use network_actions_aggregat.Examples.Goroutines.{
  as_listed, as_listed-Perm, flush_loop, stored_day, stored_month,
}
use network_actions_aggregat.Examples.Services.{
  its_record, its_event, its_event_parsed, fetched, sent,
}

abbrev Reaches : Service Tables → Type 0
Reaches p = Reached uuid times json as_listed events repository config no_tables p

abbrev started : Service Tables
started = new_service config no_tables

abbrev received : Service Tables
received = record started {
  feed = record sent { queue = [] };
  system = after_event uuid (noon 9) (noon 9) its_event started.system;
  received = its_event ∷ [];
}

received_run : Reaches received
unfolding new_service
received_run =
    next
      (next
        (next here (
          act refl (consume {p = started} fetched (fetch {f = new_feed} its_record (noon 9) refl))))
        (act refl (
          consume {p = record started { feed = fetched }} sent (
            send {f = fetched} its_record its_event (ap (after_parse its_record) its_event_parsed)
              (omega arith)))))
      (act refl
        (receive {p = record started { feed = sent }} (noon 9) (noon 9) its_event [] refl refl))

run-IsServed_example :
    IsServed uuid times json as_listed events repository config no_tables received
run-IsServed_example =
    run-IsServed uuid times json as_listed events repository config no_tables received received_run

-- Another goroutine takes a step.
other :
    {p : Service Tables} (s : System Tables) (x : Step uuid as_listed events repository p.system s)
    → IsInternal uuid as_listed events repository x
    → p.outcome ≡ none
    → Reaches p
    → Reaches (record p { system = s })
other s x i o r = next r (act o (internal s x i))

-- The buffers are swapped, the day and the month are stored, and the loop ends.
flushed : (p : Service Tables) × Reaches p
unfolding new_service initial new process_event is_duplicate mark_processed is_late_event mark_dirty
    add_to_buffer add_day add_month add_event accumulate aggregates update_agg_data add_duration
    lookup insert upsert_day_aggregation upsert_month_aggregation
flushed = (
  _,
  other _ (end none [] [] refl) tt refl (
      other _ (put_month none stored_month _ [] (flush_loop [] []) [] refl refl) tt refl (
        other _ (put_day none stored_day _ [] (flush_loop [] (stored_month ∷ [])) [] refl refl) tt
          refl (other _ swap tt refl received_run))),
)

flushed-IsQuiet : IsQuiet flushed.0
unfolding flushed new_service initial
flushed-IsQuiet = record {
  queue = refl;
  loops = refl;
  buffered = refl;
  lost_days = refl;
  lost_months = refl;
  recounted_days = refl;
  recounted_months = refl;
}

its_month : (Buffer.month_of its_event).nanos ≡ zero_nanos
unfolding month_start midnight date_of civil year_of month_of days_before days_before_year
    days_before_month
its_month = refl

its_event-IsDated : IsDated its_event
unfolding month_start
its_event-IsDated = (
  record { offset = omega arith; late = omega arith },
  record { offset = omega arith; late = omega (arith, its_month) },
)

flushed-IsDated : All IsDated flushed.0.system.taken
unfolding flushed new_service initial new process_event is_duplicate lookup
flushed-IsDated = (its_event-IsDated, tt)

run-quiet_example :
    let p = flushed.0 in
    let k = event_month its_event in
    Picks p.system.taken p.feed.consumer.sent
    × ((repository_laws.day_cells p.system.db k event_type_call_in
          ≡ wrap (
              plus
                (repository_laws.day_cells no_tables k event_type_call_in)
                (sum_of (select (is_at event_day k event_type_call_in) p.system.taken))))
        × (repository_laws.month_cells p.system.db (month_date k) event_type_call_in
            ≡ wrap (
                plus
                  (repository_laws.month_cells no_tables (month_date k) event_type_call_in)
                  (sum_of (select (is_at event_month k event_type_call_in) p.system.taken)))))
run-quiet_example =
    run-quiet uuid times json as_listed events repository repository_laws config no_tables
      (event_month its_event) event_type_call_in as_listed-Perm days_dated months_dated flushed.0
      flushed.1 flushed-IsDated flushed-IsQuiet
