-- ===== src/Aggregator/Losses.antt =====
-- `flushBuffers` when an upsert fails: where it stops, and what is then in the storage.
use network_actions_aggregat.Prelude.{
  ◌≡◌, refl, ap, sym, ◌∙◌, ◌⊎◌, inl, inr, ◌&&◌, Option, none, some, List, [], ◌∷◌, ◌++◌, Bool-cases,
  String,
}
use network_actions_aggregat.Clock.{Time}
use network_actions_aggregat.Clock.Text.{Text}
use network_actions_aggregat.Entity.{EventType}
use network_actions_aggregat.Entity.Errors.{Error, errorf}
use network_actions_aggregat.Aggregation.Sums.{plus, wrap}
use network_actions_aggregat.Buffer.{Aggregate, aggregates}
use network_actions_aggregat.Repository.{
  Context, AggregationRepository, AggregationLaws, Cells, Upsert, IsUpsert,
}
use network_actions_aggregat.Aggregator.{
  Aggregator, and_then, then_also, is_empty, upsert_all, flush_buffers,
}
use network_actions_aggregat.Aggregator.System.{upsert_one}
use network_actions_aggregat.Aggregator.Upserts.{sum_at, Outcome, upsert_all-Outcome}
use network_actions_aggregat.Aggregator.Flush.{
  emptied, loops, flush_buffers-loops, flush_buffers-nothing,
}

module _ {Db : Type 0} (text : String) (upsert : Upsert Db) (ctx : Context) where
  -- A loop stops at an aggregate: the upserts of those before it succeed, from the storage that they
  -- reach its own upsert fails, and the loop returns that error under its text.
  pub record StopsAt (items : List Aggregate) (db db' : Db) (e : Error) : Type 0 where
    pub stored : List Aggregate
    pub failed : Aggregate
    pub lost : List Aggregate
    pub split : items ≡ stored ++ failed ∷ lost
    pub reached : Db
    pub stores : upsert_all text upsert ctx stored db ≡ (reached, none)
    pub cause : Error
    pub fails : upsert_one upsert ctx failed reached ≡ (db', some cause)
    pub returns : e ≡ errorf text cause

  StopsAt-cons :
      (a : Aggregate) (rest : List Aggregate) (db db1 db' : Db) (e : Error)
      → upsert_one upsert ctx a db ≡ (db1, none)
      → StopsAt rest db1 db' e
      → StopsAt (a ∷ rest) db db' e
  unfolding upsert_all
  StopsAt-cons a rest db db1 db' e h s = record {
    stored = a ∷ s.stored;
    failed = s.failed;
    lost = s.lost;
    split = ap (◌∷◌ a) s.split;
    reached = s.reached;
    stores = rw h s.stores;
    cause = s.cause;
    fails = s.fails;
    returns = s.returns;
  }

  and_then-StopsAt :
      (a : Aggregate) (rest : List Aggregate) (db : Db) (r : Db × Option Error)
      (next : Db → Db × Option Error) (db' : Db) (e : Error)
      → upsert_one upsert ctx a db ≡ r
      → ((db1 : Db) → next db1 ≡ (db', some e) → StopsAt rest db1 db' e)
      → and_then text r next ≡ (db', some e)
      → StopsAt (a ∷ rest) db db' e
  unfolding upsert_all
  and_then-StopsAt a rest db (db1, none) next db' e h ih k =
      StopsAt-cons a rest db db1 db' e h (ih db1 k)
  and_then-StopsAt a rest db (db1, some x) next db' e h ih k = record {
    stored = [];
    failed = a;
    lost = rest;
    split = refl;
    reached = db;
    stores = refl;
    cause = x;
    fails = h ∙ ap (λ r. (r.0, some x)) k;
    returns = cc (ap (λ r. r.1) k);
  }

  pub upsert_all-StopsAt :
      (items : List Aggregate) (db db' : Db) (e : Error)
      → upsert_all text upsert ctx items db ≡ (db', some e)
      → StopsAt items db db' e
  unfolding upsert_all
  upsert_all-StopsAt [] db db' e h = absurd (cc (ap (λ r. r.1) h))
  upsert_all-StopsAt (a ∷ rest) db db' e h =
      and_then-StopsAt a rest db _ (λ db1. upsert_all text upsert ctx rest db1) db' e refl
        (λ db1 k. upsert_all-StopsAt rest db1 db' e k) h

  module _ (column : Time → Text) (cells other : Db → Cells)
      (u : IsUpsert upsert column cells other) (k : Text) (ty : EventType) where
    Outcome-none :
        (items : List Aggregate) (db db' : Db) (r : Db × Option Error)
        → r ≡ (db', none)
        → Outcome upsert column cells other u text ctx k ty items db r
        → (cells db' k ty ≡ wrap (plus (cells db k ty) (sum_at column k ty items)))
          × (other db' k ty ≡ other db k ty)
    Outcome-none items db db' (db1, none) h o =
        let same : db' ≡ db1 = sym (ap (λ r. r.0) h) in
        (ap (λ d. cells d k ty) same ∙ o.0, ap (λ d. other d k ty) same ∙ o.1)
    Outcome-none items db db' (db1, some e) h o = absurd (cc (ap (λ r. r.1) h))

    pub upsert_all-none :
        (items : List Aggregate) (db db' : Db)
        → upsert_all text upsert ctx items db ≡ (db', none)
        → (cells db' k ty ≡ wrap (plus (cells db k ty) (sum_at column k ty items)))
          × (other db' k ty ≡ other db k ty)
    upsert_all-none items db db' h =
        Outcome-none items db db' _ h
          (upsert_all-Outcome upsert column cells other u text ctx k ty items db)

    -- The cells after the loop that stopped: only what was before the failure was added.
    pub StopsAt-cells :
        (items : List Aggregate) (db db' : Db) (e : Error) (s : StopsAt items db db' e)
        → (cells db' k ty ≡ wrap (plus (cells db k ty) (sum_at column k ty s.stored)))
          × (other db' k ty ≡ other db k ty)
    StopsAt-cells items db db' e s =
        let a = s.failed in
        let d = u.failed ctx a.period a.event_type a.totals s.reached db' s.cause s.fails k ty in
        let o = upsert_all-none s.stored db s.reached s.stores in (d.0 ∙ o.0, d.1 ∙ o.1)

module _ {Db : Type 0} (order : List Aggregate → List Aggregate) (repo : AggregationRepository Db)
    (laws : AggregationLaws repo) (ctx : Context) where
  open laws use {day_column, month_column, day_cells, month_cells, day_upsert, month_upsert}

  abbrev pub day_text : String
  day_text = "failed to upsert day aggregation"

  abbrev pub month_text : String
  month_text = "failed to upsert month aggregation"

  -- The loop over the days stopped: every day cell grew by the days before the failure, no month cell
  -- changed.
  abbrev pub LosesDays : List Aggregate → Db → Db → Error → Type 0
  LosesDays days db db' e =
      (s : StopsAt day_text repo.upsert_day_aggregation ctx days db db' e) × ((k : Text)
          (ty : EventType)
        → (day_cells db' k ty ≡ wrap (plus (day_cells db k ty) (sum_at day_column k ty s.stored)))
          × (month_cells db' k ty ≡ month_cells db k ty))

  -- The loop over the days went through and the one over the months stopped: every day cell grew by all
  -- the days, every month cell by the months before the failure.
  abbrev pub LosesMonths : List Aggregate → List Aggregate → Db → Db → Error → Type 0
  LosesMonths days months db db' e =
      (db1 : Db) × (s : StopsAt month_text repo.upsert_month_aggregation ctx months db1 db' e)
      × (upsert_all day_text repo.upsert_day_aggregation ctx days db ≡ (db1, none))
      × ((k : Text) (ty : EventType)
          → (day_cells db' k ty ≡ wrap (plus (day_cells db k ty) (sum_at day_column k ty days)))
            × (month_cells db' k ty
                ≡ wrap (plus (month_cells db k ty) (sum_at month_column k ty s.stored))))

  then_also-loses :
      (days months : List Aggregate) (db db' : Db) (e : Error) (r : Db × Option Error)
      → upsert_all day_text repo.upsert_day_aggregation ctx days db ≡ r
      → then_also r (upsert_all month_text repo.upsert_month_aggregation ctx months) ≡ (db', some e)
      → LosesDays days db db' e ⊎ LosesMonths days months db db' e
  then_also-loses days months db db' e (db1, none) hd h =
      let s = upsert_all-StopsAt month_text repo.upsert_month_aggregation ctx months db1 db' e h in
      inr (
        db1,
        s,
        hd,
        λ k ty.
            let m =
              StopsAt-cells month_text repo.upsert_month_aggregation ctx month_column month_cells
                day_cells month_upsert k ty months db1 db' e s in
            let d =
              upsert_all-none day_text repo.upsert_day_aggregation ctx day_column day_cells
                month_cells day_upsert k ty days db db1 hd in
            (m.1 ∙ d.0, m.0 ∙ ap (λ c. wrap (plus c (sum_at month_column k ty s.stored))) d.1),
      )
  then_also-loses days months db db' e (db1, some x) hd h =
      let s = upsert_all-StopsAt day_text repo.upsert_day_aggregation ctx days db db' e (hd ∙ h) in
      inl (
        s,
        λ k ty.
            StopsAt-cells day_text repo.upsert_day_aggregation ctx day_column day_cells month_cells
              day_upsert k ty days db db' e s,
      )

  -- Over a storage that keeps the laws of the repository, a flush that returns an error leaves the buffers
  -- empty all the same and stops at one aggregate of their days or months: the upserts before it succeed,
  -- its own upsert fails from the storage that these reach, and the flush returns that error under the
  -- text of its loop. Every cell of the storage then grew by the aggregates before it and by nothing else:
  -- it and those after it are neither there nor in the buffers. If it is a day, no month was added; if it
  -- is a month, all days were.
  pub flush_buffers-loses :
      (uc : Aggregator) (db : Db) (e : Error)
      → (flush_buffers order repo ctx uc db).2 ≡ some e
      → let r = flush_buffers order repo ctx uc db in
        let days = order (aggregates uc.day_buffer) in
        let months = order (aggregates uc.month_buffer) in
        (r.0 ≡ emptied uc) × (LosesDays days db r.1 e ⊎ LosesMonths days months db r.1 e)
  unfolding loops
  flush_buffers-loses uc db e h =
      elim (Bool-cases (is_empty uc.day_buffer && is_empty uc.month_buffer)) [
        | inl nothing ↦
            absurd (cc (ap (λ r. r.2) (flush_buffers-nothing repo ctx order uc db nothing), h))
        | inr some_left ↦
            let days = order (aggregates uc.day_buffer) in
            let months = order (aggregates uc.month_buffer) in
            let l = flush_buffers-loops repo ctx order uc db some_left in
            rw l (
              refl,
              then_also-loses days months db _ e _ refl
                  (ap (λ x. ((loops repo ctx days months db).0, x)) (sym (ap (λ r. r.2) l) ∙ h)),
            )
      ]
