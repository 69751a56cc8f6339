-- ===== src/Verifier.antt =====
-- cmd/generator/verifier.go, the part that checks aggregates: what it expects of a list of events, and
-- how it compares that with the storage. A text of mismatches is a list of values.
pub mod Expected
pub mod Comparison
pub mod Tracking
use network_actions_aggregat.Prelude.{
  ℕ, String, Bool, Option, none, some, List, [], ◌∷◌, ◌++◌, foldl, nat_beq, string_eq, list_eq,
  nat_eq, if◌then◌else◌,
}
use network_actions_aggregat.Dict.{Dict, lookup, insert}
use network_actions_aggregat.Clock.{Time, before}
use network_actions_aggregat.Clock.Text.{Text}
use network_actions_aggregat.Entity.{Event, EventType}
use network_actions_aggregat.Entity.Errors.{Error, Result, ok, err, errorf, message}
use network_actions_aggregat.Aggregation.{Totals, no_totals, update_agg_data, PeriodAggregation}
use network_actions_aggregat.Buffer.{day_of, day_key, month_of, month_key}
use network_actions_aggregat.Repository.{Context, AggregationRepository}

abbrev pub TypeMap : Type 0
TypeMap = Dict EventType Totals

-- `map[string]map[entity.EventType]*aggData`.
abbrev pub AggMap : Type 0
AggMap = Dict Text TypeMap

abbrev pub map_or_new : Option TypeMap → TypeMap
map_or_new none = []
map_or_new (some m) = m

abbrev pub data_or_new : Option Totals → Totals
data_or_new none = no_totals
data_or_new (some t) = t

-- One event joins the sums of a key and its type.
unfoldable pub expect : Text → Event → AggMap → AggMap
expect key e m =
    let types = map_or_new (lookup key m) in
    insert key
      (insert e.event_type (update_agg_data (data_or_new (lookup e.event_type types)) e) types) m

-- The loop of `calculateExpectedAggregations`.
unfoldable pub expect_all : List Event → AggMap × AggMap → AggMap × AggMap
expect_all [] m = m
expect_all (e ∷ es) (days, months) =
    expect_all es (expect (day_key (day_of e)) e days, expect (month_key (month_of e)) e months)

-- `calculateExpectedAggregations`.
unfoldable pub calculate_expected_aggregations : List Event → AggMap × AggMap
calculate_expected_aggregations es = expect_all es ([], [])

-- `convertDayAggsToMap` and `convertMonthAggsToMap`, by the text of the period.
unfoldable pub convert_to_map : (Time → Text) → List PeriodAggregation → AggMap → AggMap
convert_to_map key_of [] m = m
convert_to_map key_of (a ∷ rest) m =
    let key = key_of a.period in
    convert_to_map key_of rest
      (insert key (insert a.event_type a.totals (map_or_new (lookup key m))) m)

pub data Mismatch : Type 0 where
  missing : Text → EventType → Mismatch
  count duration bytes_up bytes_down : Text → EventType → ℕ → ℕ → Mismatch

-- `if expected != actual { errors = append(errors, …) }`.
abbrev pub differs : (ℕ → ℕ → Mismatch) → ℕ → ℕ → List Mismatch
differs report a b = if nat_beq a b then [] else report a b ∷ []

-- The body of the two comparisons for one key and type.
abbrev pub compare_data : Text → EventType → Totals → Option Totals → List Mismatch
compare_data k ty t none = missing k ty ∷ []
compare_data k ty t (some u) =
    differs (count k ty) t.count_events u.count_events
    ++ (differs (duration k ty) t.sum_duration u.sum_duration
        ++ (differs (bytes_up k ty) t.sum_bytes_up u.sum_bytes_up
            ++ differs (bytes_down k ty) t.sum_bytes_down u.sum_bytes_down))

unfoldable pub compare_types : Text → TypeMap → TypeMap → List Mismatch
compare_types k [] actual = []
compare_types k ((ty, t) ∷ rest) actual =
    compare_data k ty t (lookup ty actual) ++ compare_types k rest actual

-- `compareDayAggregations` and `compareMonthAggregations`.
unfoldable pub compare_aggregations : AggMap → AggMap → List Mismatch
compare_aggregations [] actual = []
compare_aggregations ((k, types) ∷ rest) actual =
    compare_types k types (map_or_new (lookup k actual)) ++ compare_aggregations rest actual

abbrev pub earlier : Time → Time → Time
earlier a b = if before a b then a else b

abbrev pub later : Time → Time → Time
later a b = if before b a then a else b

-- The loop for `minTime` and `maxTime`, after the first event.
unfoldable pub time_bounds : List Event → Time × Time → Time × Time
time_bounds [] r = r
time_bounds (e ∷ es) (lo, hi) = time_bounds es (earlier e.started_at lo, later e.started_at hi)

-- `if len(errors) > 0 { return fmt.Errorf(…) }`; the text of the mismatches is left out of the error.
abbrev pub unless_mismatch : Error → List Mismatch → Option Error → Option Error
unless_mismatch e [] next = next
unless_mismatch e (x ∷ xs) next = some e

abbrev pub compare_all :
    AggMap × AggMap → List PeriodAggregation → List PeriodAggregation → Option Error
compare_all (days, months) day_rows month_rows =
    unless_mismatch (message "day aggregation verification failed")
      (compare_aggregations days (convert_to_map day_key day_rows []))
      (unless_mismatch (message "month aggregation verification failed")
        (compare_aggregations months (convert_to_map month_key month_rows [])) none)

-- `if err != nil { return fmt.Errorf("…: %w", err) }`, and what follows the read otherwise.
abbrev pub with_rows :
    String
    → Result (List PeriodAggregation)
    → (List PeriodAggregation → Option Error)
    → Option Error
with_rows text (ok rows) next = next rows
with_rows text (err x) next = some (errorf text x)

-- `VerifyAggregations`.
unfoldable pub verify_aggregations :
    {Db : Type 0} → Context → AggregationRepository Db → List Event → Db → Option Error
verify_aggregations ctx repo [] db = some (message "no events to verify aggregations")
verify_aggregations ctx repo (e ∷ es) db =
    let (lo, hi) = time_bounds es (e.started_at, e.started_at) in
    with_rows "failed to get day aggregations" (repo.get_day_aggregations ctx lo hi db) (λ days.
      with_rows "failed to get month aggregations" (repo.get_month_aggregations ctx lo hi db)
        (λ months. compare_all (calculate_expected_aggregations (e ∷ es)) days months))
