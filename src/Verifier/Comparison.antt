-- ===== src/Verifier/Comparison.antt =====
-- The comparison of expected aggregates with those of the storage, and what `VerifyAggregations` shows.
use network_actions_aggregat.Prelude.{
  String, ◌≡◌, refl, ◌↔◌, Option, none, some, List, [], ◌∷◌, ◌++◌, arith, All, nat_beq_iff,
  string_eq, list_eq, nat_eq,
}
use network_actions_aggregat.Dict.{lookup}
use network_actions_aggregat.Clock.{Time}
use network_actions_aggregat.Clock.Text.{Text}
use network_actions_aggregat.Entity.{Event, EventType}
use network_actions_aggregat.Entity.Errors.{Error, Result, ok, err}
use network_actions_aggregat.Aggregation.{Totals, PeriodAggregation}
use network_actions_aggregat.Buffer.{day_key, month_key}
use network_actions_aggregat.Repository.{Context, AggregationRepository}
use network_actions_aggregat.Verifier.{
  TypeMap, AggMap, map_or_new, Mismatch, compare_data, compare_types, compare_aggregations,
  convert_to_map, compare_all, unless_mismatch, with_rows, calculate_expected_aggregations,
  verify_aggregations, time_bounds,
}

append_nil_iff : (xs ys : List Mismatch) → (xs ++ ys ≡ []) ↔ ((xs ≡ []) × (ys ≡ []))
append_nil_iff [] ys = (λ h. (refl, h), λ h. h.1)
append_nil_iff (x ∷ xs) ys = (λ h. absurd (cc), λ h. absurd (cc (h.0)))

compare_data_iff :
    (k : Text) (ty : EventType) (t : Totals) (o : Option Totals)
    → (compare_data k ty t o ≡ []) ↔ (o ≡ some t)
compare_data_iff k ty t none = ground arith
compare_data_iff k ty t (some u) = ground (
  arith,
  nat_beq_iff t.count_events u.count_events,
  nat_beq_iff t.sum_duration u.sum_duration,
  nat_beq_iff t.sum_bytes_up u.sum_bytes_up,
  nat_beq_iff t.sum_bytes_down u.sum_bytes_down,
)

-- Every expected entry of a key is there with the same sums.
abbrev pub AgreeTypes : TypeMap → TypeMap → Type 0
AgreeTypes expected actual = All (λ (p : EventType × Totals). lookup p.0 actual ≡ some p.1) expected

abbrev pub Agree : AggMap → AggMap → Type 0
Agree expected actual =
    All (λ (q : Text × TypeMap). AgreeTypes q.1 (map_or_new (lookup q.0 actual))) expected

compare_types_iff :
    (k : Text) (expected actual : TypeMap)
    → (compare_types k expected actual ≡ []) ↔ AgreeTypes expected actual
unfolding compare_types
compare_types_iff k [] actual = (λ h. tt, λ h. refl)
compare_types_iff k ((ty, t) ∷ rest) actual =
    let a = append_nil_iff (compare_data k ty t (lookup ty actual)) (compare_types k rest actual) in
    let d = compare_data_iff k ty t (lookup ty actual) in
    let r = compare_types_iff k rest actual in
    (λ h. (d.0 (a.0 h).0, r.0 (a.0 h).1), λ h. a.1 (d.1 h.0, r.1 h.1))

-- The comparison reports nothing exactly if every expected key and type is in the other map with the
-- same four sums.
pub compare_aggregations_iff :
    (expected actual : AggMap) → (compare_aggregations expected actual ≡ []) ↔ Agree expected actual
unfolding compare_aggregations
compare_aggregations_iff [] actual = (λ h. tt, λ h. refl)
compare_aggregations_iff ((k, types) ∷ rest) actual =
    let there = map_or_new (lookup k actual) in
    let a = append_nil_iff (compare_types k types there) (compare_aggregations rest actual) in
    let d = compare_types_iff k types there in
    let r = compare_aggregations_iff rest actual in
    (λ h. (d.0 (a.0 h).0, r.0 (a.0 h).1), λ h. a.1 (d.1 h.0, r.1 h.1))

unless_mismatch-none :
    (e : Error) (xs : List Mismatch) (next : Option Error)
    → unless_mismatch e xs next ≡ none
    → (xs ≡ []) × (next ≡ none)
unless_mismatch-none e [] next h = (refl, h)
unless_mismatch-none e (x ∷ xs) next h = absurd (cc)

with_rows-none :
    (text : String) (r : Result (List PeriodAggregation))
    (next : List PeriodAggregation → Option Error)
    → with_rows text r next ≡ none
    → (rows : List PeriodAggregation) × ((r ≡ ok rows) × (next rows ≡ none))
with_rows-none text (ok rows) next h = (rows, (refl, h))
with_rows-none text (err x) next h = absurd (cc)

-- The aggregates that were read hold all that is expected of the events.
abbrev pub Confirms : List Event → List PeriodAggregation → List PeriodAggregation → Type 0
Confirms es days months =
    Agree (calculate_expected_aggregations es).0 (convert_to_map day_key days [])
    × Agree (calculate_expected_aggregations es).1 (convert_to_map month_key months [])

compare_all-none :
    (es : List Event) (days months : List PeriodAggregation)
    → compare_all (calculate_expected_aggregations es) days months ≡ none
    → Confirms es days months
compare_all-none es days months h =
    let (d, rest) =
      unless_mismatch-none _
        (compare_aggregations (calculate_expected_aggregations es).0
          (convert_to_map day_key days []))
        _ h in
    let (m, done) =
      unless_mismatch-none _
        (compare_aggregations (calculate_expected_aggregations es).1
          (convert_to_map month_key months []))
        _ rest in
    ((compare_aggregations_iff _ _).0 d, (compare_aggregations_iff _ _).0 m)

-- A verification that returns nil has read day and month aggregates over one range of times, and they
-- hold every expected day and month and type with the expected sums.
pub verify_aggregations-none :
    {Db : Type 0} (ctx : Context) (repo : AggregationRepository Db) (es : List Event) (db : Db)
    → verify_aggregations ctx repo es db ≡ none
    → (lo : Time) × (hi : Time) × (days : List PeriodAggregation) × (months : List
        PeriodAggregation)
      × (repo.get_day_aggregations ctx lo hi db ≡ ok days)
      × (repo.get_month_aggregations ctx lo hi db ≡ ok months)
      × Confirms es days months
unfolding verify_aggregations
verify_aggregations-none ctx repo [] db h = absurd (cc)
verify_aggregations-none ctx repo (e ∷ es) db h =
    let r = time_bounds es (e.started_at, e.started_at) in
    let (days, (read_days, rest)) =
      with_rows-none "failed to get day aggregations" (repo.get_day_aggregations ctx r.0 r.1 db) _
        h in
    let (months, (read_months, last)) =
      with_rows-none "failed to get month aggregations" (repo.get_month_aggregations ctx r.0 r.1 db)
        _ rest in
    (r.0, r.1, days, months, read_days, read_months, compare_all-none (e ∷ es) days months last)
