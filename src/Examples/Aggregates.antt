-- ===== src/Examples/Aggregates.antt =====
-- The theorems on the aggregator at a stream of three deliveries, one of them twice.
use mathlib.Core.List.Perm.{refl as perm_refl}
use network_actions_aggregat.Prelude.{
  ◌≡◌, refl, ◌⊎◌, List, [], ◌∷◌, none, some, Bool-cases, inl, inr, ◌&&◌, foldl, select, leb,
  string_eq, nat_eq, list_eq, ◌-◌, All, take,
}
use network_actions_aggregat.Clock.{Time, day_nanos, hour, add}
use network_actions_aggregat.Dict.{lookup, insert}
use network_actions_aggregat.Entity.{Event, event_type_call_in}
use network_actions_aggregat.Entity.Errors.{context_canceled, errorf}
use network_actions_aggregat.Aggregation.Sums.{wrap, sum_of, plus}
use network_actions_aggregat.Buffer.{
  Aggregate, totals_at, day_of, month_of, add_event, day_key, add_day, add_month, accumulate,
  aggregates,
}
use network_actions_aggregat.Buffer.Streams.{is_at, event_day, event_month}
use network_actions_aggregat.Aggregator.{
  Aggregator, new, process_events, flush_buffers, cleanup_processed_events, is_empty, is_duplicate,
  add_to_buffer, upsert_all, recount, reconcile_day,
}
use network_actions_aggregat.Aggregator.Dedup.{
  Timed, process_all, first_seen, events_of, totals-process_all,
}
use network_actions_aggregat.Aggregator.Invariant.{handle, step, run-Inv}
use network_actions_aggregat.Aggregator.Lateness.{late_periods, process_all-dirty}
use network_actions_aggregat.Aggregator.Cleanup.{passes, is_duplicate-cleanup}
use network_actions_aggregat.Aggregator.Keyed.{IsKeyed, add_event-IsKeyed}
use network_actions_aggregat.Aggregator.Shutdown.{
  UpsertRefuses, until_done, Loses, process_events-Loses,
}
use network_actions_aggregat.Aggregator.Flush.{emptied, StoresBuffers, flush_buffers-stores}
use network_actions_aggregat.Aggregator.Losses.{LosesDays, LosesMonths, flush_buffers-loses}
use network_actions_aggregat.Aggregator.Delivered.{
  until_closed, empty-IsKeyed, process_events-delivers,
}
use network_actions_aggregat.Buffer.Dates.{IsDated, day_date, month_date}
use network_actions_aggregat.Clock.Text.{Text}
use network_actions_aggregat.Examples.Storage.{Tables, no_tables}
use network_actions_aggregat.Examples.Tables.{
  repository as tables, repository_laws as tables_laws, days_dated, months_dated, call-IsDated,
  days_done, months_done,
}
use network_actions_aggregat.Aggregator.Reconcile.{recounted, reconcile_day-adds}
use network_actions_aggregat.Examples.Ledger.{empty, days, months, repository, laws, events}
use network_actions_aggregat.Examples.Values.{uuid, uuid-ReadsBack, config, noon, call}

abbrev deliveries : List Timed
deliveries =
    (noon 8, noon 8, call 1 7 60)
    ∷ (noon 8, noon 8, call 2 7 30)
    ∷ (noon 9, noon 9, call 1 7 60)
    ∷ []

totals-process_all_example :
    (totals_at
        (event_day (call 1 7 60))
        event_type_call_in
        (process_all uuid deliveries (new config)).day_buffer
      ≡ wrap (
          sum_of (
            select
              (is_at event_day (event_day (call 1 7 60)) event_type_call_in)
              (first_seen [] (events_of deliveries)))))
    × (totals_at
          (event_day (call 1 7 60))
          event_type_call_in
          (process_all uuid deliveries (new config)).month_buffer
        ≡ wrap (
            sum_of (
              select
                (is_at event_month (event_day (call 1 7 60)) event_type_call_in)
                (first_seen [] (events_of deliveries)))))
totals-process_all_example =
    totals-process_all uuid uuid-ReadsBack config deliveries (event_day (call 1 7 60))
      event_type_call_in

abbrev identity : List Aggregate → List Aggregate
identity l = l

abbrev aggregator : Aggregator
aggregator = process_all uuid deliveries (new config)

flush_buffers-none :
    (uc : Aggregator) (db : Tables) → (flush_buffers identity tables none uc db).2 ≡ none
unfolding flush_buffers
flush_buffers-none uc db = elim (Bool-cases (is_empty uc.day_buffer && is_empty uc.month_buffer)) [
  | inl nothing ↦ rw nothing refl
  | inr some_left ↦
      let (m, d) = days_done "failed to upsert day aggregation" (aggregates uc.day_buffer) db in
      let (n, e) =
        months_done "failed to upsert month aggregation" (aggregates uc.month_buffer) m in
      rw (some_left, d, e) refl
]

abbrev a_day_key : Text
a_day_key = event_day (call 1 7 60)

abbrev a_month_key : Text
a_month_key = event_month (call 1 7 60)

first_two-IsDated : All IsDated (first_seen [] (events_of deliveries))
unfolding first_seen
first_two-IsDated = (call-IsDated 1 60, (call-IsDated 2 30, tt))

process_events-delivers_example :
    let db' =
      (process_events uuid identity tables
        (until_closed none deliveries)
        (new config)
        no_tables).1 in
    let es = first_seen [] (events_of deliveries) in
    let k = a_month_key in
    (tables_laws.day_cells db' k event_type_call_in
      ≡ wrap (
          plus
            (tables_laws.day_cells no_tables k event_type_call_in)
            (sum_of (select (is_at event_day k event_type_call_in) es))))
    × (tables_laws.month_cells db' (month_date k) event_type_call_in
        ≡ wrap (
            plus
              (tables_laws.month_cells no_tables (month_date k) event_type_call_in)
              (sum_of (select (is_at event_month k event_type_call_in) es))))
process_events-delivers_example =
    process_events-delivers uuid identity tables tables_laws config uuid-ReadsBack
      (λ l. perm_refl l) days_dated months_dated none deliveries no_tables first_two-IsDated
      (flush_buffers-none (process_all uuid deliveries (new config)) no_tables) a_month_key
      event_type_call_in

abbrev one_event : Aggregator
one_event = add_to_buffer (new config) (call 1 7 60)

abbrev a_day : Time
a_day = day_of (call 1 7 60)

one_event-IsKeyed_days : IsKeyed tables_laws.day_column day_date one_event.day_buffer
unfolding new add_to_buffer add_day
one_event-IsKeyed_days =
    add_event-IsKeyed tables_laws.day_column day_date a_day_key a_day (call 1 7 60) []
      (days_dated (call 1 7 60)) (empty-IsKeyed tables_laws.day_column day_date)

one_event-IsKeyed_months : IsKeyed tables_laws.month_column month_date one_event.month_buffer
unfolding new add_to_buffer add_month
one_event-IsKeyed_months =
    add_event-IsKeyed tables_laws.month_column month_date a_month_key (month_of (call 1 7 60))
      (call 1 7 60) [] (months_dated (call 1 7 60) (call-IsDated 1 60))
      (empty-IsKeyed tables_laws.month_column month_date)

flush_buffers-stores_example :
    StoresBuffers identity tables tables_laws none a_month_key event_type_call_in one_event
      no_tables
      (flush_buffers identity tables none one_event no_tables)
flush_buffers-stores_example =
    flush_buffers-stores identity tables tables_laws none a_month_key event_type_call_in one_event
      no_tables (λ l. perm_refl l) one_event-IsKeyed_days one_event-IsKeyed_months
      (flush_buffers-none one_event no_tables)

one_event-fails :
    (flush_buffers identity repository (some context_canceled) one_event empty).2
    ≡ some (errorf "failed to upsert day aggregation" context_canceled)
unfolding flush_buffers upsert_all new add_to_buffer add_day add_month add_event accumulate
    aggregates lookup insert
one_event-fails = refl

flush_buffers-loses_example :
    let ctx = some context_canceled in
    let e = errorf "failed to upsert day aggregation" context_canceled in
    let r = flush_buffers identity repository ctx one_event empty in
    (r.0 ≡ emptied one_event)
    × (LosesDays identity repository laws ctx (aggregates one_event.day_buffer) empty r.1 e
        ⊎ LosesMonths identity repository laws ctx
            (aggregates one_event.day_buffer)
            (aggregates one_event.month_buffer)
            empty
            r.1
            e)
flush_buffers-loses_example =
    flush_buffers-loses identity repository laws (some context_canceled) one_event empty
      (errorf "failed to upsert day aggregation" context_canceled) one_event-fails

abbrev recounted_events : List Event
recounted_events = call 1 7 60 ∷ call 2 7 30 ∷ []

day_reconciles :
    (reconcile_day identity
      (events recounted_events)
      repository
      none
      a_day
      (add a_day day_nanos)
      empty).1
    ≡ none
unfolding reconcile_day upsert_all recount accumulate lookup insert
day_reconciles = refl

reconcile_day-adds_example :
    let db' =
      (reconcile_day identity
        (events recounted_events)
        repository
        none
        a_day
        (add a_day day_nanos)
        empty).0 in
    (days db' (day_key a_day) event_type_call_in
      ≡ wrap (
          plus
            (days empty (day_key a_day) event_type_call_in)
            (recounted day_key a_day recounted_events (day_key a_day) event_type_call_in)))
    × (months db' (day_key a_day) event_type_call_in
        ≡ months empty (day_key a_day) event_type_call_in)
reconcile_day-adds_example =
    reconcile_day-adds identity (λ l. perm_refl l) (events recounted_events) repository laws none
      a_day (add a_day day_nanos) empty recounted_events refl (day_key a_day) event_type_call_in
      day_reconciles

abbrev handled : Aggregator
handled = foldl (step uuid) (new config) (handle (noon 8) (noon 8) (call 1 7 60) ∷ [])

is_duplicate-cleanup_example :
    is_duplicate uuid (cleanup_processed_events (noon 9) handled) (call 1 7 60)
    ≡ passes
        (λ t. leb ((noon 9).nanos - hour) t.nanos)
        (lookup (uuid.string (call 1 7 60).event_id) handled.processed_events)
is_duplicate-cleanup_example =
    is_duplicate-cleanup uuid (noon 9) handled (call 1 7 60)
      (run-Inv uuid config (handle (noon 8) (noon 8) (call 1 7 60) ∷ []))

no_days : UpsertRefuses repository.upsert_day_aggregation
no_days x t ty c d u w db h = absurd (cc (h))

no_months : UpsertRefuses repository.upsert_month_aggregation
no_months x t ty c d u w db h = absurd (cc (h))

process_events-Loses_example :
    Loses uuid identity repository laws no_days no_months deliveries
      (new config)
      empty
      (some context_canceled)
      (process_events uuid identity repository (until_done deliveries) (new config) empty)
    × Loses uuid identity repository laws no_days no_months deliveries (new config) empty none (
        process_events uuid identity repository
          (until_closed (some context_canceled) deliveries)
          (new config)
          empty)
process_events-Loses_example =
    process_events-Loses uuid identity repository laws no_days no_months deliveries context_canceled
      (new config) empty

-- Three periods are late and two fit.
abbrev late_deliveries : List Timed
late_deliveries =
    (noon 8, noon 8, call 1 7 60)
    ∷ (noon 8, noon 8, call 2 8 30)
    ∷ (noon 9, noon 9, call 3 8 60)
    ∷ (noon 9, noon 9, call 4 7 60)
    ∷ []

process_all-dirty_example :
    (process_all uuid late_deliveries (new config)).dirty_periods
    ≡ take 2 (late_periods config.late_event_threshold [] late_deliveries)
process_all-dirty_example = process_all-dirty uuid uuid-ReadsBack config late_deliveries
