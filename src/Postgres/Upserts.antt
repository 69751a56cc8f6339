-- ===== src/Postgres/Upserts.antt =====
-- The upserts of the aggregation repository keep the laws that the use cases rely on.
use network_actions_aggregat.Prelude.{
  ◌≡◌, refl, sym, ap, Bool-cases, inl, inr, Option, none, some, String, ◌&&◌, ◌==◌, string_eq,
  list_eq, nat_eq, if◌then◌else◌,
}
use network_actions_aggregat.Dict.{lookup}
use network_actions_aggregat.Clock.{Time, truncate_day, month_start}
use network_actions_aggregat.Clock.Text.{Text}
use network_actions_aggregat.Entity.{EventType}
use network_actions_aggregat.Entity.Errors.{Error}
use network_actions_aggregat.Aggregation.{Totals, no_totals}
use network_actions_aggregat.Aggregation.Sums.{plus, wrap, zero_plus}
use network_actions_aggregat.Repository.{Cells, added, IsUpsert, AggregationLaws}
use network_actions_aggregat.Postgres.Sql.{Gorm, Rows, SqlLaws, upserted}
use network_actions_aggregat.Postgres.{
  wrap_failure, increments, upsert_day_aggregation, upsert_month_aggregation,
  aggregation_repository,
}

-- What a table shows for a date and a type: nothing counts as zero.
abbrev pub shown : Option Totals → Totals
shown none = no_totals
shown (some t) = t

abbrev pub cells_of : {Db : Type 0} → (Db → Rows) → Db → Cells
cells_of rows db k y = shown (rows db k y)

-- A row that is inserted or incremented ends with the old sums plus the new ones.
shown-upserted_day :
    (x : Totals) (o : Option Totals)
    → upserted "agg_day"
        (increments "agg_day" x.count_events x.sum_duration x.sum_bytes_up x.sum_bytes_down)
        x
        o
      ≡ wrap (plus (shown o) x)
unfolding lookup
shown-upserted_day x none = ap wrap (sym (zero_plus x))
shown-upserted_day x (some t) = refl

shown-upserted_month :
    (x : Totals) (o : Option Totals)
    → upserted "agg_month"
        (increments "agg_month" x.count_events x.sum_duration x.sum_bytes_up x.sum_bytes_down)
        x
        o
      ≡ wrap (plus (shown o) x)
unfolding lookup
shown-upserted_month x none = ap wrap (sym (zero_plus x))
shown-upserted_month x (some t) = refl

wrap_failure-none :
    {Db : Type 0} (text : String) (r : Db × Option Error) (db' : Db)
    → wrap_failure text r ≡ (db', none)
    → r ≡ (db', none)
wrap_failure-none text (db, none) db' h = h
wrap_failure-none text (db, some e) db' h = absurd (cc)

wrap_failure-some :
    {Db : Type 0} (text : String) (r : Db × Option Error) (db' : Db) (x : Error)
    → wrap_failure text r ≡ (db', some x)
    → (e : Error) × (r ≡ (db', some e))
wrap_failure-some text (db, none) db' x h = absurd (cc)
wrap_failure-some text (db, some e) db' x h = (e, ap (λ r. (r.0, some e)) h)

module _ {Db : Type 0} (sql : Gorm Db) (laws : SqlLaws sql) (clock : Time) where
  open laws use {date, day_rows, month_rows, creates_day, creates_month}

  shown-in_range :
      (rows : Db → Rows) (db : Db) (k : Text) (y : EventType) (o : Option Totals)
      → ((t : Totals) → o ≡ some t → wrap t ≡ t)
      → wrap (shown o) ≡ shown o
  shown-in_range rows db k y none h = refl
  shown-in_range rows db k y (some t) h = h t refl

  -- A cell after a write, from the row after it.
  shown-added :
      (before after : Db → Rows) (db db' : Db) (d : Text) (ty : EventType) (x new : Totals)
      (k : Text) (y : EventType)
      → after db' k y ≡ (if (d == k) && (ty == y) then some new else before db k y)
      → new ≡ wrap (plus (shown (before db k y)) x)
      → cells_of after db' k y ≡ added (cells_of before db) d ty x k y
  shown-added before after db db' d ty x new k y e w = elim (Bool-cases ((d == k) && (ty == y))) [
    | inl here ↦ rw (e, here, w)
    | inr there ↦ rw (e, there)
  ]

  -- Over a database that keeps its documented behaviour, the day upsert adds the four sums, in 64 bits,
  -- to the row of the period's date and the type, creating it if it is missing; it leaves every other row
  -- and the other table alone, and a failure changes nothing.
  pub upsert_day_aggregation-IsUpsert :
      IsUpsert
        (upsert_day_aggregation sql clock)
        (λ t. date (truncate_day t))
        (cells_of day_rows)
        (cells_of month_rows)
  unfolding upsert_day_aggregation
  upsert_day_aggregation-IsUpsert = record {
    in_range =
        λ db k y. shown-in_range day_rows db k y (day_rows db k y) (creates_day.in_range db k y);
    done = λ ctx t ty x db db' h k y.
        let d = creates_day.done ctx _ _ db db' (wrap_failure-none _ _ db' h) k y in
        (
          shown-added day_rows day_rows db db' (date (truncate_day t)) ty x _ k y d.0
              (shown-upserted_day x (day_rows db k y)),
          ap shown d.1,
        );
    failed = λ ctx t ty x db db' e h k y.
        let (e', f) = wrap_failure-some _ _ db' e h in
        let same = creates_day.failed ctx _ _ db db' e' f in
        (ap (λ s. cells_of day_rows s k y) same, ap (λ s. cells_of month_rows s k y) same);
  }

  -- Over a database that keeps its documented behaviour, the month upsert adds the four sums, in 64 bits,
  -- to the row of the date of the period's first of the month and the type, creating it if it is missing;
  -- it leaves every other row and the other table alone, and a failure changes nothing.
  pub upsert_month_aggregation-IsUpsert :
      IsUpsert
        (upsert_month_aggregation sql clock)
        (λ t. date (month_start t))
        (cells_of month_rows)
        (cells_of day_rows)
  unfolding upsert_month_aggregation
  upsert_month_aggregation-IsUpsert = record {
    in_range = λ db k y.
        shown-in_range month_rows db k y (month_rows db k y) (creates_month.in_range db k y);
    done = λ ctx t ty x db db' h k y.
        let d = creates_month.done ctx _ _ db db' (wrap_failure-none _ _ db' h) k y in
        (
          shown-added month_rows month_rows db db' (date (month_start t)) ty x _ k y d.0
              (shown-upserted_month x (month_rows db k y)),
          ap shown d.1,
        );
    failed = λ ctx t ty x db db' e h k y.
        let (e', f) = wrap_failure-some _ _ db' e h in
        let same = creates_month.failed ctx _ _ db db' e' f in
        (ap (λ s. cells_of month_rows s k y) same, ap (λ s. cells_of day_rows s k y) same);
  }

  -- Over a database that keeps its documented behaviour, each of the two upserts adds the four sums, in 64
  -- bits, to the row of its own table for the type and the date, of the day or of the first of the month
  -- of the period, and creates the row if it is missing; it leaves every other row and the other table
  -- alone, and a failure changes nothing.
  pub upserts-IsUpsert :
      IsUpsert
        (upsert_day_aggregation sql clock)
        (λ t. date (truncate_day t))
        (cells_of day_rows)
        (cells_of month_rows)
      × IsUpsert
          (upsert_month_aggregation sql clock)
          (λ t. date (month_start t))
          (cells_of month_rows)
          (cells_of day_rows)
  upserts-IsUpsert = (upsert_day_aggregation-IsUpsert, upsert_month_aggregation-IsUpsert)

  -- So the repository has the laws that the use cases rely on.
  abbrev pub aggregation_laws : AggregationLaws (aggregation_repository sql clock)
  aggregation_laws = record {
    day_column = λ t. date (truncate_day t);
    month_column = λ t. date (month_start t);
    day_cells = cells_of day_rows;
    month_cells = cells_of month_rows;
    day_upsert = upsert_day_aggregation-IsUpsert;
    month_upsert = upsert_month_aggregation-IsUpsert;
  }
