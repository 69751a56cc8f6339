-- ===== src/Examples/Goroutines.antt =====
-- The theorems on the goroutines of the aggregator, at a call that is counted and flushed.
use mathlib.Core.List.{Perm}
use mathlib.Core.List.Perm.{refl as perm_refl}
use network_actions_aggregat.Prelude.{none, List, All}
use network_actions_aggregat.Clock.{Time, truncate_day, month_start}
use network_actions_aggregat.Entity.{event_type_call_in}
use network_actions_aggregat.Buffer.{Aggregate}
use network_actions_aggregat.Buffer.Streams.{event_month}
use network_actions_aggregat.Aggregator.System.{
  System, Loop, Run, here, next, handle, swap, initial,
}
use network_actions_aggregat.Aggregator.System.Balanced.{IsBalanced}
use network_actions_aggregat.Aggregator.System.Conservation.{run-IsBalanced}
use network_actions_aggregat.Buffer.Dates.{IsDated}
use network_actions_aggregat.Dict.{lookup}
use network_actions_aggregat.Aggregator.{new, is_duplicate}
use network_actions_aggregat.Examples.Storage.{Tables, no_tables}
use network_actions_aggregat.Examples.Tables.{
  repository, repository_laws, events, days_dated, months_dated, call-IsDated,
}
use network_actions_aggregat.Examples.Values.{uuid, call, noon, config}

abbrev pub as_listed : List Aggregate → List Aggregate
as_listed l = l

pub as_listed-Perm : (l : List Aggregate) → Perm (as_listed l) l
as_listed-Perm l = perm_refl l

abbrev Runs : System Tables → Type 0
Runs s = Run uuid as_listed events repository config no_tables s

-- The call is handled and the buffers are swapped.
abbrev swapped : (s : System Tables) × Runs s
swapped = (_, next (next here (handle (noon 7) (noon 7) (call 1 7 60))) swap)

swapped-IsDated : All IsDated swapped.0.taken
unfolding initial new is_duplicate lookup
swapped-IsDated = (call-IsDated 1 60, tt)

run-IsBalanced_example :
    IsBalanced uuid as_listed events repository repository_laws config no_tables
      (event_month (call 1 7 60))
      event_type_call_in
      swapped.0
run-IsBalanced_example =
    run-IsBalanced uuid as_listed events repository repository_laws config no_tables
      (event_month (call 1 7 60)) event_type_call_in as_listed-Perm days_dated months_dated
      swapped.0 swapped.1 swapped-IsDated

-- Then the day and the month are stored, and the loop ends.
abbrev pub of_call : Time → Aggregate
of_call t = record {
  period = t;
  event_type = event_type_call_in;
  totals = record { count_events = 1; sum_duration = 60; sum_bytes_up = 10; sum_bytes_down = 20 };
}

abbrev pub stored_day : Aggregate
stored_day = of_call (truncate_day (noon 7))

abbrev pub stored_month : Aggregate
stored_month = of_call (month_start (noon 7))

abbrev pub flush_loop : List Aggregate → List Aggregate → Loop
flush_loop ds ms = record { days = ds; months = ms; next = none }
