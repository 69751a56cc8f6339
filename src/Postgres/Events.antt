-- ===== src/Postgres/Events.antt =====
-- The event repository over the documented behaviour of the database: what a batch leaves in
-- `events_raw`, and what a time range reads back.
use network_actions_aggregat.Prelude.{
  ℕ, suc, String, ◌≡◌, refl, sym, ap, ◌∙◌, Bool, inl, inr, subst, Option, none, some, Option-cases,
  List, [], ◌∷◌, map, All, select,
}
use mathlib.Core.List.{Perm}
use mathlib.Core.List.Perm.{map as perm_map}
use network_actions_aggregat.Clock.{Time}
use network_actions_aggregat.Entity.{Event, validate}
use network_actions_aggregat.Entity.Errors.{Error, Result, ok, err, wrap_error, ◌>>=◌}
use network_actions_aggregat.Models.{
  EventModel, from_domain_event_batch, to_domain, to_domain_event_batch,
}
use network_actions_aggregat.Repository.{Context}
use network_actions_aggregat.Ingest.Retry.{IsAtomic}
use network_actions_aggregat.Ingest.Shutdown.{RefusesDone}
use network_actions_aggregat.Ingest.Delivery.{Growth}
use network_actions_aggregat.Postgres.Sql.{
  Gorm, SqlLaws, insert_missing, hold, started_from, started_to,
}
use network_actions_aggregat.Postgres.{
  wrap_failure, first_invalid, on_event_key, batch_insert, get_by_time_range, event_repository,
}
use network_actions_aggregat.Postgres.Keys.{
  with_batch, with_batch-append, with_batch-idempotent, HasKeys, HasDistinctKeys,
}

first_invalid-none :
    (n : ℕ) (es : List Event) → first_invalid n es ≡ none → All (λ e. validate e ≡ none) es
unfolding first_invalid
first_invalid-none n [] h = tt
first_invalid-none n (e ∷ es) h = elim (Option-cases (validate e)) [
  | inl valid ↦ (valid, first_invalid-none (suc n) es (subst_valid valid h))
  | inr (x, bad) ↦ absurd (cc)
]
  where
    subst_valid :
        (validate e ≡ none) → first_invalid n (e ∷ es) ≡ none → first_invalid (suc n) es ≡ none
    subst_valid v k = cc

ok_eq : {a b : List Event} → ok a ≡ ok b → a ≡ b
ok_eq e = cc

module _ {Db : Type 0} (sql : Gorm Db) (laws : SqlLaws sql) (not_found : Error → Bool) where
  open laws use {event_rows, creates_events, creates_events_failed, finds_events}

  wrap_failure-none :
      (text : String) (r : Db × Option Error) (db' : Db)
      → wrap_failure text r ≡ (db', none)
      → r ≡ (db', none)
  wrap_failure-none text (db, none) db' h = h
  wrap_failure-none text (db, some e) db' h = absurd (cc)

  wrap_failure-some :
      (text : String) (r : Db × Option Error) (db' : Db) (x : Error)
      → wrap_failure text r ≡ (db', some x)
      → (e : Error) × (r ≡ (db', some e))
  wrap_failure-some text (db, none) db' x h = absurd (cc)
  wrap_failure-some text (db, some e) db' x h = (e, ap (λ r. (r.0, some e)) h)

  batch_insert-valid :
      (ctx : Context) (e : Event) (es : List Event) (db : Db)
      → first_invalid 0 (e ∷ es) ≡ none
      → batch_insert sql not_found ctx (e ∷ es) db
        ≡ wrap_failure "failed to batch insert events"
            (sql.create_events ctx on_event_key (from_domain_event_batch (e ∷ es)) db)
  unfolding batch_insert
  batch_insert-valid ctx e es db h = rw (h, batch_insert) refl

  batch_insert-invalid :
      (ctx : Context) (e : Event) (es : List Event) (db : Db) (x : Error)
      → first_invalid 0 (e ∷ es) ≡ some x
      → batch_insert sql not_found ctx (e ∷ es) db ≡ (db, some x)
  unfolding batch_insert
  batch_insert-invalid ctx e es db x h = rw (h, batch_insert) refl

  -- Over a database that keeps its documented behaviour, a successful `BatchInsert` had only valid
  -- events, and leaves the table with the batch added.
  pub batch_insert_lem :
      (ctx : Context) (es : List Event) (db db' : Db)
      → batch_insert sql not_found ctx es db ≡ (db', none)
      → All (λ e. validate e ≡ none) es × (event_rows db' ≡ with_batch (event_rows db) es)
  unfolding batch_insert insert_missing from_domain_event_batch
  batch_insert_lem ctx [] db db' h = (tt, ap (λ r. event_rows (r.0)) (sym h))
  batch_insert_lem ctx (e ∷ es) db db' h = elim (Option-cases (first_invalid 0 (e ∷ es))) [
    | inl valid ↦ (
      first_invalid-none 0 (e ∷ es) valid,
      creates_events ctx (from_domain_event_batch (e ∷ es)) db db'
          (wrap_failure-none _ _ db' (sym (batch_insert-valid ctx e es db valid) ∙ h)),
    )
    | inr (x, bad) ↦
        absurd (cc (ap (λ r. r.1) (batch_insert-invalid ctx e es db x bad), ap (λ r. r.1) h))
  ]

  -- Over a database that keeps its documented behaviour, a `BatchInsert` that returns an error has left
  -- the storage as it was.
  pub event_repository-IsAtomic : IsAtomic (event_repository sql not_found)
  unfolding batch_insert
  event_repository-IsAtomic ctx [] db db' e h = absurd (cc (ap (λ r. r.1) h))
  event_repository-IsAtomic ctx (x ∷ es) db db' e h =
      elim (Option-cases (first_invalid 0 (x ∷ es))) [
        | inl valid ↦
            let (e', f) =
              wrap_failure-some _ _ db' e (sym (batch_insert-valid ctx x es db valid) ∙ h) in
            creates_events_failed ctx _ _ db db' e' f
        | inr (y, bad) ↦ ap (λ r. r.0) (sym h ∙ batch_insert-invalid ctx x es db y bad)
      ]

  wrap_failure-error :
      (text : String) (r : Db × Option Error) → (wrap_failure text r).1 ≡ none → r.1 ≡ none
  wrap_failure-error text (db, none) h = refl
  wrap_failure-error text (db, some e) h = absurd (cc)

  -- If the database refuses to insert with a context that is done, so does `BatchInsert`.
  pub event_repository-RefusesDone :
      ((x : Error) (ms : List EventModel) (db : Db)
        → (sql.create_events (some x) on_event_key ms db).1 ≡ none
        → ⊥)
      → RefusesDone (event_repository sql not_found)
  event_repository-RefusesDone refuses x e es db h =
      elim (Option-cases (first_invalid 0 (e ∷ es))) [
        | inl valid ↦ refuses x (from_domain_event_batch (e ∷ es)) db (
            wrap_failure-error _ _
              (ap (λ r. r.1) (sym (batch_insert-valid (some x) e es db valid)) ∙ h))
        | inr (y, bad) ↦
            absurd (cc (ap (λ r. r.1) (batch_insert-invalid (some x) e es db y bad), h))
      ]

  -- Over a database that keeps its documented behaviour, a batch that `BatchInsert` stores again, after
  -- a retry or a second delivery, changes no row: the second call leaves `events_raw` as the first left
  -- it, with every key of the batch in it and each key at most once. Before the first call each key was
  -- there at most once.
  pub batch_insert-again :
      (ctx ctx' : Context) (es : List Event) (db db1 db2 : Db)
      → HasDistinctKeys (event_rows db)
      → batch_insert sql not_found ctx es db ≡ (db1, none)
      → batch_insert sql not_found ctx' es db1 ≡ (db2, none)
      → (event_rows db2 ≡ event_rows db1)
        × (HasKeys (event_rows db1) (from_domain_event_batch es) × HasDistinctKeys (event_rows db1))
  batch_insert-again ctx ctx' es db db1 db2 d h1 h2 =
      let e1 = (batch_insert_lem ctx es db db1 h1).1 in
      let e2 = (batch_insert_lem ctx' es db1 db2 h2).1 in
      let (same, (there, distinct)) = with_batch-idempotent (event_rows db) es d in
      (
        e2 ∙ (ap (λ r. with_batch r es) e1 ∙ (same ∙ sym e1)),
        (
          subst (λ r. HasKeys r (from_domain_event_batch es)) (sym e1) there,
          subst HasDistinctKeys (sym e1) distinct,
        ),
      )

  -- How `events_raw` grows by the batches that are inserted.
  unfoldable pub event_growth : Growth (event_repository sql not_found) (List EventModel)
  unfolding insert_missing from_domain_event_batch
  event_growth = record {
    content = event_rows;
    merge = with_batch;
    merge-nil = λ rows. refl;
    merge-append = with_batch-append;
    content-batch_insert = λ ctx es db db' h. (batch_insert_lem ctx es db db' h).1;
  }

  -- Over a database that keeps its documented behaviour, a time range that is read without an error holds
  -- exactly the events of the rows that start in it, both ends included, in some order.
  pub get_by_time_range_lem :
      (ctx : Context) (from to : Time) (db : Db) (es : List Event)
      → get_by_time_range sql not_found ctx from to db ≡ ok es
      → Perm es (
          to_domain_event_batch
            (select (hold (started_from from ∷ started_to to ∷ [])) (event_rows db)))
  unfolding get_by_time_range to_domain_event_batch
  get_by_time_range_lem ctx from to db es h = from_result _ (λ ms f. finds_events ctx _ _ db ms f) h
    where
      from_result :
          {rows : List EventModel} (r : Result (List EventModel))
          → ((ms : List EventModel) → r ≡ ok ms → Perm ms rows)
          → (wrap_error "failed to get events by time range" r >>= λ ms. ok (map to_domain ms))
            ≡ ok es
          → Perm es (map to_domain rows)
      from_result {rows} (ok ms) p e =
          subst (λ l. Perm l (map to_domain rows)) (ok_eq e) (perm_map to_domain (p ms refl))
      from_result (err x) p e = absurd (cc)
