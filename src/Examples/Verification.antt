-- ===== src/Examples/Verification.antt =====
-- The theorems on the verifier at calls of one day and a storage that has them.
use network_actions_aggregat.Prelude.{
  ◌≡◌, ◌↔◌, refl, none, some, beq_refl, string_eq, list_eq, nat_eq, List, [], ◌∷◌, foldl, select,
}
use network_actions_aggregat.Clock.{Time}
use network_actions_aggregat.Clock.Text.{Text}
use network_actions_aggregat.Dict.{lookup, insert}
use network_actions_aggregat.Entity.{Event, EventType, event_type_call_in}
use network_actions_aggregat.Entity.Errors.{ok}
use network_actions_aggregat.Aggregation.{PeriodAggregation, Totals, update_agg_data, add_duration}
use network_actions_aggregat.Aggregation.Sums.{wrap, sum_of}
use network_actions_aggregat.Buffer.{add_day, add_month, totals_at, day_of, month_of}
use network_actions_aggregat.Buffer.Streams.{is_at, event_day, event_month}
use network_actions_aggregat.Repository.{AggregationRepository}
use network_actions_aggregat.Verifier.{
  map_or_new, expect_all, expect, convert_to_map, calculate_expected_aggregations,
  compare_aggregations, verify_aggregations,
}
use network_actions_aggregat.Verifier.Expected.{expected_at, calculate_expected_aggregations-totals}
use network_actions_aggregat.Verifier.Comparison.{Agree, compare_aggregations_iff}
use network_actions_aggregat.Examples.Ledger.{Ledger, empty, repository}
use network_actions_aggregat.Examples.Values.{call, noon}

abbrev calls : List Event
calls = call 1 7 60 ∷ call 2 7 30 ∷ []

calculate_expected_aggregations-totals_example :
    let m = calculate_expected_aggregations calls in
    let k = event_day (call 1 7 60) in
    (expected_at k event_type_call_in m.0
      ≡ wrap (sum_of (select (is_at event_day k event_type_call_in) calls)))
    × (expected_at k event_type_call_in m.1
        ≡ wrap (sum_of (select (is_at event_month k event_type_call_in) calls)))
    × (expected_at k event_type_call_in m.0
        ≡ totals_at k event_type_call_in (foldl add_day [] calls))
    × (expected_at k event_type_call_in m.1
        ≡ totals_at k event_type_call_in (foldl add_month [] calls))
calculate_expected_aggregations-totals_example =
    calculate_expected_aggregations-totals (event_day (call 1 7 60)) event_type_call_in calls

abbrev pub row : Time → PeriodAggregation
row t = record {
  period = t;
  event_type = event_type_call_in;
  totals = record { count_events = 1; sum_duration = 60; sum_bytes_up = 10; sum_bytes_down = 20 };
  updated_at = noon 8;
}

-- The ledger's repository with one row for each read.
abbrev pub rows_repository : AggregationRepository Ledger
rows_repository = record repository {
  get_day_aggregations = λ ctx from to l. ok (row (day_of (call 1 7 60)) ∷ []);
  get_month_aggregations = λ ctx from to l. ok (row (month_of (call 1 7 60)) ∷ []);
}

compare_aggregations_iff_example :
    (compare_aggregations
        ((event_day (call 1 7 60), (event_type_call_in, (row (noon 7)).totals) ∷ []) ∷ [])
        []
      ≡ [])
    ↔ Agree ((event_day (call 1 7 60), (event_type_call_in, (row (noon 7)).totals) ∷ []) ∷ []) []
compare_aggregations_iff_example =
    compare_aggregations_iff
      ((event_day (call 1 7 60), (event_type_call_in, (row (noon 7)).totals) ∷ []) ∷ []) []

same_aggregations :
    (k : Text) (ty : EventType) (t : Totals)
    → compare_aggregations ((k, (ty, t) ∷ []) ∷ []) ((k, (ty, t) ∷ []) ∷ []) ≡ []
unfolding lookup
same_aggregations k ty t = (compare_aggregations_iff _ _).1 ((found, tt), tt)
  where
    found : lookup ty (map_or_new (lookup k ((k, (ty, t) ∷ []) ∷ []))) ≡ some t
    found = rw (beq_refl k, beq_refl ty) refl

abbrev one_call : List Event
one_call = call 1 7 60 ∷ []

pub one_call_verified : verify_aggregations none rows_repository one_call empty ≡ none
unfolding verify_aggregations calculate_expected_aggregations expect_all expect lookup insert
    convert_to_map update_agg_data add_duration
one_call_verified =
    rw
      (
        same_aggregations (event_day (call 1 7 60)) event_type_call_in (row (noon 7)).totals,
        same_aggregations (event_month (call 1 7 60)) event_type_call_in (row (noon 7)).totals,
      )
      refl
