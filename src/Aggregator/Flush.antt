-- ===== src/Aggregator/Flush.antt =====
-- `flushBuffers` over any storage that keeps the laws of the repository.
use mathlib.Core.List.{Perm}
use network_actions_aggregat.Prelude.{
  ◌≡◌, refl, ap, sym, ◌∙◌, inl, inr, true, false, ◌&&◌, Option, none, some, List, [], ◌∷◌,
  Bool-cases, arith,
}
use network_actions_aggregat.Dict.{lookup}
use network_actions_aggregat.Clock.{Time}
use network_actions_aggregat.Clock.Text.{Text}
use network_actions_aggregat.Entity.{EventType}
use network_actions_aggregat.Entity.Errors.{Error}
use network_actions_aggregat.Aggregation.{no_totals}
use network_actions_aggregat.Aggregation.Sums.{plus, wrap, plus_zero}
use network_actions_aggregat.Buffer.{Aggregate, Buffer, aggregates, totals_of, totals_at}
use network_actions_aggregat.Buffer.Dates.{
  Separates, day_date, day_date-Separates, month_date, month_date-Separates,
}
use network_actions_aggregat.Repository.{
  Context, AggregationRepository, AggregationLaws, Cells, Upsert, IsUpsert,
}
use network_actions_aggregat.Aggregator.{Aggregator, then_also, is_empty, upsert_all, flush_buffers}
use network_actions_aggregat.Aggregator.Upserts.{sum_at, Outcome, upsert_all-Outcome}
use network_actions_aggregat.Aggregator.Keyed.{IsKeyed, sum_at-Perm, sum_at-aggregates}

-- The state of the use case when both maps are new.
abbrev pub emptied : Aggregator → Aggregator
emptied uc = record uc { day_buffer = []; month_buffer = [] }

module _ {Db : Type 0} (repo : AggregationRepository Db) (ctx : Context) where
  -- The two loops of a flush.
  unfoldable pub loops : List Aggregate → List Aggregate → Db → Db × Option Error
  loops days months db =
      then_also
        (upsert_all "failed to upsert day aggregation" repo.upsert_day_aggregation ctx days db)
        (upsert_all "failed to upsert month aggregation" repo.upsert_month_aggregation ctx months)

  module _ (order : List Aggregate → List Aggregate) where
    pub flush_buffers-loops :
        (uc : Aggregator) (db : Db)
        → (is_empty uc.day_buffer && is_empty uc.month_buffer) ≡ false
        → let r =
            loops (order (aggregates uc.day_buffer)) (order (aggregates uc.month_buffer)) db in
          flush_buffers order repo ctx uc db ≡ (emptied uc, r.0, r.1)
    unfolding flush_buffers loops
    flush_buffers-loops uc db h = rw h

    pub flush_buffers-nothing :
        (uc : Aggregator) (db : Db)
        → (is_empty uc.day_buffer && is_empty uc.month_buffer) ≡ true
        → flush_buffers order repo ctx uc db ≡ (emptied uc, db, none)
    unfolding flush_buffers
    flush_buffers-nothing uc db h = rw h

module _ {Db : Type 0} (order : List Aggregate → List Aggregate) (repo : AggregationRepository Db)
    (laws : AggregationLaws repo) (ctx : Context) (k : Text) (ty : EventType) where
  open laws use {day_column, month_column, day_cells, month_cells, day_upsert, month_upsert}

  -- All the aggregates of a list were added to a table.
  abbrev pub Stored : (Time → Text) → (Db → Cells) → List Aggregate → Db → Db → Type 0
  Stored column cells items db db' =
      cells db' k ty ≡ wrap (plus (cells db k ty) (sum_at column k ty items))

  -- What the two loops of a flush leave in the two tables when none of their upserts fails.
  abbrev pub Flushed : List Aggregate → List Aggregate → Db → Db × Option Error → Type 0
  Flushed days months db (db', none) =
      Stored day_column day_cells days db db' × Stored month_column month_cells months db db'
  Flushed days months db (db', some e) = Unit

  months-Flushed :
      (days months : List Aggregate) (db db1 : Db) (r : Db × Option Error)
      → Stored day_column day_cells days db db1
      → month_cells db1 k ty ≡ month_cells db k ty
      → Outcome repo.upsert_month_aggregation month_column month_cells day_cells month_upsert "" ctx
          k ty months db1 r
      → Flushed days months db r
  months-Flushed days months db db1 (db', none) s m o =
      (o.1 ∙ s, o.0 ∙ ap (λ c. wrap (plus c (sum_at month_column k ty months))) m)
  months-Flushed days months db db1 (db', some e) s m o = tt

  days-Flushed :
      (days months : List Aggregate) (db : Db) (r : Db × Option Error)
      (next : Db → Db × Option Error)
      → Outcome repo.upsert_day_aggregation day_column day_cells month_cells day_upsert "" ctx k ty
          days db r
      → ((db1 : Db)
          → Outcome repo.upsert_month_aggregation month_column month_cells day_cells month_upsert ""
              ctx k ty months db1
              (next db1))
      → Flushed days months db (then_also r next)
  days-Flushed days months db (db1, none) next o n =
      months-Flushed days months db db1 (next db1) o.0 o.1 (n db1)
  days-Flushed days months db (db1, some e) next o n = tt

  loops-Flushed :
      (days months : List Aggregate) (db : Db)
      → Flushed days months db (loops repo ctx days months db)
  unfolding loops
  loops-Flushed days months db =
      days-Flushed days months db _ _
        (upsert_all-Outcome repo.upsert_day_aggregation day_column day_cells month_cells day_upsert
          _ ctx k ty days db)
        (λ db1.
          upsert_all-Outcome repo.upsert_month_aggregation month_column month_cells day_cells
            month_upsert _ ctx k ty months db1)

  Flushed-none :
      (days months : List Aggregate) (db : Db) (r : Db × Option Error)
      → r.1 ≡ none
      → Flushed days months db r
      → Stored day_column day_cells days db r.0 × Stored month_column month_cells months db r.0
  Flushed-none days months db (db', none) h f = f
  Flushed-none days months db (db', some e) h f = absurd (cc)

module _ {Db : Type 0} (order : List Aggregate → List Aggregate) (repo : AggregationRepository Db)
    (laws : AggregationLaws repo) (ctx : Context) (k : Text) (ty : EventType) where
  open laws use {day_column, month_column, day_cells, month_cells, day_upsert, month_upsert}

  empty_totals : (b : Buffer) → is_empty b ≡ true → totals_at k ty b ≡ no_totals
  unfolding lookup totals_of
  empty_totals [] h = refl
  empty_totals (q ∷ b) h = absurd (cc)

  Stored-totals :
      (column : Time → Text) (cells : Db → Cells) (f : Text → Text)
      → Separates f
      → ((l : List Aggregate) → Perm (order l) l)
      → (b : Buffer) (db db' : Db) → IsKeyed column f b
      → Stored order repo laws ctx (f k) ty column cells (order (aggregates b)) db db'
      → cells db' (f k) ty ≡ wrap (plus (cells db (f k) ty) (totals_at k ty b))
  Stored-totals column cells f apart perm b db db' v s =
      s
      ∙ ap (λ t. wrap (plus (cells db (f k) ty) t))
          (sum_at-Perm column (f k) ty (perm (aggregates b))
            ∙ sum_at-aggregates column f apart k ty b v.entries v.keys)

  unchanged_totals :
      {other : Db → Cells} {upsert : Upsert Db} (column : Time → Text) (cells : Db → Cells)
      (u : IsUpsert upsert column cells other) (j : Text) (b : Buffer) (db : Db)
      → is_empty b ≡ true
      → cells db j ty ≡ wrap (plus (cells db j ty) (totals_at k ty b))
  unchanged_totals column cells u j b db h =
      sym (u.in_range db j ty)
      ∙ ap wrap (sym (plus_zero _) ∙ ap (plus (cells db j ty)) (sym (empty_totals b h)))

  -- What a flush leaves, with the result of its call.
  abbrev pub StoresBuffers : Aggregator → Db → Aggregator × Db × Option Error → Type 0
  StoresBuffers uc db r =
      (r.0 ≡ emptied uc)
      × (day_cells r.1 k ty ≡ wrap (plus (day_cells db k ty) (totals_at k ty uc.day_buffer)))
      × (month_cells r.1 (month_date k) ty
          ≡ wrap (plus (month_cells db (month_date k) ty) (totals_at k ty uc.month_buffer)))

  -- Over a storage that keeps the laws of the repository, a flush that returns no error adds to the cells
  -- of each day, and to the cells of the date of the first day of each month, exactly what the buffers
  -- hold for that day and for that month, in whatever order the maps are ranged over, and leaves the
  -- buffers empty. The periods in the buffers are stored under these dates of their keys.
  pub flush_buffers-stores :
      (uc : Aggregator) (db : Db)
      → ((l : List Aggregate) → Perm (order l) l)
      → IsKeyed day_column day_date uc.day_buffer
      → IsKeyed month_column month_date uc.month_buffer
      → (flush_buffers order repo ctx uc db).2 ≡ none
      → StoresBuffers uc db (flush_buffers order repo ctx uc db)
  flush_buffers-stores uc db perm vd vm h =
      let j = month_date k in
      elim (Bool-cases (is_empty uc.day_buffer && is_empty uc.month_buffer)) [
        | inl nothing ↦ rw (flush_buffers-nothing repo ctx order uc db nothing) (
          refl,
          unchanged_totals day_column day_cells day_upsert k uc.day_buffer db (ground arith),
          unchanged_totals month_column month_cells month_upsert j uc.month_buffer db
              (ground arith),
        )
        | inr some_left ↦
            let days = order (aggregates uc.day_buffer) in
            let months = order (aggregates uc.month_buffer) in
            let e = flush_buffers-loops repo ctx order uc db some_left in
            let left = loops repo ctx days months db in
            let done : left.1 ≡ none = sym (ap (λ r. r.2) e) ∙ h in
            let f =
              Flushed-none order repo laws ctx k ty days months db left done
                (loops-Flushed order repo laws ctx k ty days months db) in
            let g =
              Flushed-none order repo laws ctx j ty days months db left done
                (loops-Flushed order repo laws ctx j ty days months db) in
            rw e (
              refl,
              Stored-totals day_column day_cells day_date day_date-Separates perm uc.day_buffer db _
                  vd f.0,
              Stored-totals month_column month_cells month_date month_date-Separates perm
                  uc.month_buffer db _ vm g.1,
            )
      ]
