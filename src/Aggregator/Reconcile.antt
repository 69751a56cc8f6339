-- ===== src/Aggregator/Reconcile.antt =====
-- `reconcileDay` and `reconcileMonth`: what a recount does to the storage.
use mathlib.Core.List.{Perm}
use network_actions_aggregat.Prelude.{
  ◌≡◌, refl, ap, sym, ◌∙◌, inl, inr, Bool, true, false, Option, none, some, List, [], ◌∷◌,
  Bool-cases, foldl, map, select, ◌==◌, string_eq, list_eq, nat_eq, if◌then◌else◌,
}
use network_actions_aggregat.Dict.{lookup}
use network_actions_aggregat.Clock.{Time}
use network_actions_aggregat.Clock.Text.{Text}
use network_actions_aggregat.Entity.{Event, EventType}
use network_actions_aggregat.Entity.Errors.{Error, ok}
use network_actions_aggregat.Aggregation.{Totals, no_totals, update_agg_data}
use network_actions_aggregat.Aggregation.Sums.{
  contribution, plus, wrap, sum_of, update_agg_data-wrap, plus_assoc, plus_zero, zero_plus,
}
use network_actions_aggregat.Buffer.{Aggregate, Types, accumulate, totals_of}
use network_actions_aggregat.Buffer.Reads.{totals-accumulate}
use network_actions_aggregat.Buffer.Dates.{day_date, day_date-Separates}
use network_actions_aggregat.Repository.{
  Context, EventRepository, AggregationRepository, AggregationLaws, Cells, Upsert, IsUpsert,
}
use network_actions_aggregat.Aggregator.{recount, reconcile_day, reconcile_month}
use network_actions_aggregat.Aggregator.Upserts.{sum_at, Outcome, upsert_all-Outcome}
use network_actions_aggregat.Aggregator.Keyed.{
  KeyedTypes, KeyedTypes-accumulate, sum_at-Perm, sum_at-types, sum_at-other,
}

-- The events of a type.
abbrev pub of_type : EventType → Event → Bool
of_type ty e = e.event_type == ty

module _ (start : Time) (ty : EventType) where
  totals-accumulate-wrap :
      (e : Event) (types : Types) (a : Totals) (t : Bool)
      → of_type ty e ≡ t
      → totals_of (lookup ty types) ≡ wrap a
      → totals_of (lookup ty (accumulate start e types))
        ≡ wrap (if t then plus a (contribution e) else a)
  totals-accumulate-wrap e types a true is h =
      totals-accumulate start e ty types
      ∙ rw is (ap (λ t. update_agg_data t e) h ∙ update_agg_data-wrap a e)
  totals-accumulate-wrap e types a false is h = totals-accumulate start e ty types ∙ rw is h

  totals-foldl :
      (es : List Event) (types : Types) (a : Totals)
      → totals_of (lookup ty types) ≡ wrap a
      → totals_of (lookup ty (foldl (λ t e. accumulate start e t) types es))
        ≡ wrap (plus a (sum_of (select (of_type ty) es)))
  unfolding sum_of
  totals-foldl [] types a h = h ∙ ap wrap (sym (plus_zero a))
  totals-foldl (e ∷ es) types a h = elim (Bool-cases (of_type ty e)) [
    | inl same ↦ rw same (
        totals-foldl es _ _ (totals-accumulate-wrap e types a _ same h)
        ∙ ap wrap (plus_assoc a (contribution e) _))
    | inr other ↦ rw other (totals-foldl es _ a (totals-accumulate-wrap e types a _ other h))
  ]

  -- The recount of a list of events, type by type.
  pub totals-recount :
      (es : List Event)
      → totals_of (lookup ty (recount start es)) ≡ wrap (sum_of (select (of_type ty) es))
  unfolding recount lookup totals_of
  totals-recount es =
      totals-foldl es [] no_totals refl ∙ ap wrap (zero_plus (sum_of (select (of_type ty) es)))

module _ (column : Time → Text) (start : Time) where
  KeyedTypes-foldl :
      (es : List Event) (types : Types)
      → KeyedTypes column day_date (column start) types
      → KeyedTypes column day_date (column start) (foldl (λ t e. accumulate start e t) types es)
  KeyedTypes-foldl [] types v = v
  KeyedTypes-foldl (e ∷ es) types v =
      KeyedTypes-foldl es _
        (KeyedTypes-accumulate column day_date (column start) start e types refl v)

  recount-KeyedTypes :
      (es : List Event) → KeyedTypes column day_date (column start) (recount start es)
  unfolding recount
  recount-KeyedTypes es = KeyedTypes-foldl es [] (tt, tt)

-- What a recount of events adds under a date.
abbrev pub recounted : (Time → Text) → Time → List Event → Cells
recounted column start es k ty =
    if column start == k then wrap (sum_of (select (of_type ty) es)) else no_totals

module _ (order : List Aggregate → List Aggregate) (perm : (l : List Aggregate) → Perm (order l) l)
    (k : Text) (ty : EventType) where
  recount-sum_at :
      (column : Time → Text) (start : Time) (es : List Event)
      → sum_at column k ty (order (map (λ p. p.1) (recount start es)))
        ≡ recounted column start es k ty
  recount-sum_at column start es =
      let types = recount start es in
      let v = recount-KeyedTypes column start es in
      sum_at-Perm column k ty (perm (map (λ p. p.1) types))
      ∙ elim (Bool-cases (column start == k)) [
        | inl here ↦ rw here (
            sum_at-types column day_date day_date-Separates k ty (column start) types here v
            ∙ totals-recount start ty es)
        | inr elsewhere ↦
            rw elsewhere (
              sum_at-other column day_date day_date-Separates k ty (column start) types elsewhere v)
      ]

  Outcome-Added :
      {Db : Type 0} (upsert : Upsert Db) (column : Time → Text) (cells other : Db → Cells)
      (u : IsUpsert upsert column cells other) (ctx : Context) (start : Time) (es : List Event)
      (db : Db) (r : Db × Option Error)
      → Outcome upsert column cells other u "" ctx k ty
          (order (map (λ p. p.1) (recount start es)))
          db
          r
      → r.1 ≡ none
      → (cells r.0 k ty ≡ wrap (plus (cells db k ty) (recounted column start es k ty)))
        × (other r.0 k ty ≡ other db k ty)
  Outcome-Added upsert column cells other u ctx start es db (db', none) o h =
      (o.0 ∙ ap (λ t. wrap (plus (cells db k ty) t)) (recount-sum_at column start es), o.1)
  Outcome-Added upsert column cells other u ctx start es db (db', some e) o h = absurd (cc)

module _ {Db : Type 0} (order : List Aggregate → List Aggregate)
    (perm : (l : List Aggregate) → Perm (order l) l) (events : EventRepository Db)
    (repo : AggregationRepository Db) (laws : AggregationLaws repo) (ctx : Context)
    (start end : Time) (db : Db) (es : List Event)
    (read : events.get_by_time_range ctx start end db ≡ ok es) (k : Text) (ty : EventType) where
  open laws use {day_column, month_column, day_cells, month_cells, day_upsert, month_upsert}

  -- Over a storage that keeps the laws of the repository, with the events of the day read: reconciling a
  -- day that returns no error adds the recounted sums of the events that were read to what the
  -- storage already has for the day, and touches no other date and no month.
  pub reconcile_day-adds :
      (reconcile_day order events repo ctx start end db).1 ≡ none
      → let db' = (reconcile_day order events repo ctx start end db).0 in
        (day_cells db' k ty ≡ wrap (plus (day_cells db k ty) (recounted day_column start es k ty)))
        × (month_cells db' k ty ≡ month_cells db k ty)
  unfolding reconcile_day
  reconcile_day-adds =
      rw (read, reconcile_day)
        (Outcome-Added order perm k ty repo.upsert_day_aggregation day_column day_cells month_cells
          day_upsert ctx start es db _
          (upsert_all-Outcome repo.upsert_day_aggregation day_column day_cells month_cells
            day_upsert _ ctx k ty (order (map (λ p. p.1) (recount start es))) db))

  -- Over a storage that keeps the laws of the repository, with the events of the month read: reconciling
  -- a month that returns no error adds the recounted sums of the events that were read to
  -- what the storage already has for the month, and touches no other month and no day.
  pub reconcile_month-adds :
      (reconcile_month order events repo ctx start end db).1 ≡ none
      → let db' = (reconcile_month order events repo ctx start end db).0 in
        (month_cells db' k ty
          ≡ wrap (plus (month_cells db k ty) (recounted month_column start es k ty)))
        × (day_cells db' k ty ≡ day_cells db k ty)
  unfolding reconcile_month
  reconcile_month-adds =
      rw (read, reconcile_month)
        (Outcome-Added order perm k ty repo.upsert_month_aggregation month_column month_cells
          day_cells month_upsert ctx start es db _
          (upsert_all-Outcome repo.upsert_month_aggregation month_column month_cells day_cells
            month_upsert _ ctx k ty (order (map (λ p. p.1) (recount start es))) db))
