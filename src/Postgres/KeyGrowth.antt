-- ===== src/Postgres/KeyGrowth.antt =====
-- The keys of `events_raw`: which are there after batches, in whatever order these are stored.
use network_actions_aggregat.Prelude.{
  ◌≡◌, refl, ap, ◌∙◌, Bool, true, ◌||◌, Bool-cases, inl, inr, List, [], ◌∷◌, ◌++◌, arith,
  nat_beq_iff,
}
use network_actions_aggregat.Entity.{Event}
use network_actions_aggregat.Entity.Errors.{Error}
use network_actions_aggregat.Ingest.Delivery.{Growth}
use network_actions_aggregat.Models.{EventModel, from_domain_event_batch}
use network_actions_aggregat.Postgres.Sql.{Gorm, SqlLaws, insert_missing, has_key, same_key}
use network_actions_aggregat.Postgres.{event_repository}
use network_actions_aggregat.Postgres.Keys.{from_domain_event_batch-append}
use network_actions_aggregat.Postgres.Events.{batch_insert_lem}

-- Whether one of the events has the key of a row.
abbrev pub sends_key : List Event → EventModel → Bool
sends_key es m = has_key (from_domain_event_batch es) m

has_key-++ :
    (rows ms : List EventModel) (m : EventModel)
    → has_key (rows ++ ms) m ≡ (has_key rows m || has_key ms m)
has_key-++ [] ms m = refl
has_key-++ (r ∷ rows) ms m = ground (arith, has_key-++ rows ms m)

same_key_trans : (r x m : EventModel) → same_key x m ≡ true → same_key r x ≡ same_key r m
same_key_trans r x m h = ground (
  arith,
  h,
  nat_beq_iff x.event_id m.event_id,
  nat_beq_iff x.started_at.nanos m.started_at.nanos,
  nat_beq_iff r.event_id x.event_id,
  nat_beq_iff r.event_id m.event_id,
  nat_beq_iff r.started_at.nanos x.started_at.nanos,
  nat_beq_iff r.started_at.nanos m.started_at.nanos,
)

has_key-same :
    (rows : List EventModel) (x m : EventModel)
    → same_key x m ≡ true
    → has_key rows x ≡ has_key rows m
has_key-same [] x m h = refl
has_key-same (r ∷ rows) x m h = rw (same_key_trans r x m h, has_key-same rows x m h) refl

pub has_key-insert_missing :
    (rows ms : List EventModel) (m : EventModel)
    → has_key (insert_missing rows ms) m ≡ (has_key rows m || has_key ms m)
unfolding insert_missing
has_key-insert_missing rows [] m = ground arith
has_key-insert_missing rows (x ∷ ms) m = elim (Bool-cases (has_key rows x)) [
  | inl there ↦
      rw there (has_key-insert_missing rows ms m ∙ ground (arith, there, has_key-same rows x m))
  | inr missing ↦
      rw missing
        (has_key-insert_missing (rows ++ x ∷ []) ms m ∙ ground (arith, has_key-++ rows (x ∷ []) m))
]

module _ {Db : Type 0} (sql : Gorm Db) (laws : SqlLaws sql) (not_found : Error → Bool)
    (m : EventModel) where
  open laws use {event_rows}

  pub sends_key-append :
      (b : Bool) (es fs : List Event)
      → (b || sends_key (es ++ fs) m) ≡ ((b || sends_key es m) || sends_key fs m)
  sends_key-append b es fs =
      ap (λ ms. b || has_key ms m) (from_domain_event_batch-append es fs)
      ∙ ground (arith, has_key-++ (from_domain_event_batch es) (from_domain_event_batch fs) m)

  pub sends_key-nil : (b : Bool) → (b || sends_key [] m) ≡ b
  unfolding from_domain_event_batch
  sends_key-nil b = ground arith

  -- Whether the key is there, which grows by the keys of the events.
  abbrev pub key_growth : Growth (event_repository sql not_found) Bool
  key_growth = record {
    content = λ db. has_key (event_rows db) m;
    merge = λ b es. b || sends_key es m;
    merge-nil = sends_key-nil;
    merge-append = sends_key-append;
    content-batch_insert = λ ctx es db db' h.
        ap (λ rows. has_key rows m) (batch_insert_lem sql laws not_found ctx es db db' h).1
        ∙ has_key-insert_missing (event_rows db) (from_domain_event_batch es) m;
  }

  pub key_comm :
      (b : Bool) (es fs : List Event)
      → ((b || sends_key es m) || sends_key fs m) ≡ ((b || sends_key fs m) || sends_key es m)
  key_comm b es fs = ground arith
