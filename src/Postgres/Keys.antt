-- ===== src/Postgres/Keys.antt =====
-- The rows of `events_raw` after a batch: keys, their uniqueness, and batches that are stored again.
use network_actions_aggregat.Prelude.{
  ◌≡◌, refl, sym, ap, ◌∙◌, true, false, Bool-cases, inl, inr, subst, List, [], ◌∷◌, ◌++◌, arith,
  nat_beq_iff, All, if◌then◌else◌,
}
use network_actions_aggregat.Entity.{Event}
use network_actions_aggregat.Models.{EventModel, from_domain, from_domain_event_batch}
use network_actions_aggregat.Postgres.Sql.{insert_missing, has_key, same_key}

-- The table after a batch: its rows in order, each unless its key is there.
abbrev pub with_batch : List EventModel → List Event → List EventModel
with_batch rows es = insert_missing rows (from_domain_event_batch es)

insert_missing-append :
    (rows ms ns : List EventModel)
    → insert_missing rows (ms ++ ns) ≡ insert_missing (insert_missing rows ms) ns
unfolding insert_missing
insert_missing-append rows [] ns = refl
insert_missing-append rows (m ∷ ms) ns =
    insert_missing-append (if has_key rows m then rows else rows ++ m ∷ []) ms ns

pub from_domain_event_batch-append :
    (es fs : List Event)
    → from_domain_event_batch (es ++ fs) ≡ from_domain_event_batch es ++ from_domain_event_batch fs
unfolding from_domain_event_batch
from_domain_event_batch-append [] fs = refl
from_domain_event_batch-append (e ∷ es) fs =
    ap (λ ms. from_domain e ∷ ms) (from_domain_event_batch-append es fs)

pub with_batch-append :
    (rows : List EventModel) (es fs : List Event)
    → with_batch rows (es ++ fs) ≡ with_batch (with_batch rows es) fs
with_batch-append rows es fs =
    ap (λ ms. insert_missing rows ms) (from_domain_event_batch-append es fs)
    ∙ insert_missing-append rows (from_domain_event_batch es) (from_domain_event_batch fs)

-- Keys.
same_key_refl : (m : EventModel) → same_key m m ≡ true
same_key_refl m =
    ground
      (arith, nat_beq_iff m.event_id m.event_id, nat_beq_iff m.started_at.nanos m.started_at.nanos)

has_key-append :
    (rows : List EventModel) (r m : EventModel)
    → has_key rows m ≡ true
    → has_key (rows ++ r ∷ []) m ≡ true
has_key-append [] r m h = absurd (cc)
has_key-append (x ∷ rows) r m h = ground (arith, has_key-append rows r m)

has_key-last : (rows : List EventModel) (m : EventModel) → has_key (rows ++ m ∷ []) m ≡ true
has_key-last [] m = rw (same_key_refl m) refl
has_key-last (x ∷ rows) m = ground (arith, has_key-last rows m)

has_key-insert_missing :
    (rows ms : List EventModel) (m : EventModel)
    → has_key rows m ≡ true
    → has_key (insert_missing rows ms) m ≡ true
unfolding insert_missing
has_key-insert_missing rows [] m h = h
has_key-insert_missing rows (x ∷ ms) m h = elim (Bool-cases (has_key rows x)) [
  | inl there ↦ rw there (has_key-insert_missing rows ms m h)
  | inr missing ↦
      rw missing (has_key-insert_missing (rows ++ x ∷ []) ms m (has_key-append rows x m h))
]

abbrev pub HasKeys : List EventModel → List EventModel → Type 0
HasKeys rows ms = All (λ m. has_key rows m ≡ true) ms

insert_missing-skip :
    (rows ms : List EventModel) (m : EventModel)
    → has_key rows m ≡ true
    → insert_missing rows (m ∷ ms) ≡ insert_missing rows ms
unfolding insert_missing
insert_missing-skip rows ms m h = rw h refl

insert_missing-add :
    (rows ms : List EventModel) (m : EventModel)
    → has_key rows m ≡ false
    → insert_missing rows (m ∷ ms) ≡ insert_missing (rows ++ m ∷ []) ms
unfolding insert_missing
insert_missing-add rows ms m h = rw h refl

insert_missing-HasKeys : (rows ms : List EventModel) → HasKeys (insert_missing rows ms) ms
insert_missing-HasKeys rows [] = tt
insert_missing-HasKeys rows (m ∷ ms) = elim (Bool-cases (has_key rows m)) [
  | inl there ↦
      subst (λ r. HasKeys r (m ∷ ms)) (sym (insert_missing-skip rows ms m there))
        (has_key-insert_missing rows ms m there, insert_missing-HasKeys rows ms)
  | inr missing ↦
      subst (λ r. HasKeys r (m ∷ ms)) (sym (insert_missing-add rows ms m missing))
        (
          has_key-insert_missing (rows ++ m ∷ []) ms m (has_key-last rows m),
          insert_missing-HasKeys (rows ++ m ∷ []) ms,
        )
]

insert_missing-present :
    (rows ms : List EventModel) → HasKeys rows ms → insert_missing rows ms ≡ rows
unfolding insert_missing
insert_missing-present rows [] h = refl
insert_missing-present rows (m ∷ ms) h = rw h.0 (insert_missing-present rows ms h.1)

-- No two rows with one key.
abbrev pub HasDistinctKeys : List EventModel → Type 0
HasDistinctKeys [] = Unit
HasDistinctKeys (r ∷ rows) = (has_key rows r ≡ false) × HasDistinctKeys rows

same_key-sym : (a b : EventModel) → same_key a b ≡ same_key b a
same_key-sym a b = ground (
  arith,
  nat_beq_iff a.event_id b.event_id,
  nat_beq_iff b.event_id a.event_id,
  nat_beq_iff a.started_at.nanos b.started_at.nanos,
  nat_beq_iff b.started_at.nanos a.started_at.nanos,
)

has_key-append_ne :
    (rows : List EventModel) (m r : EventModel)
    → has_key rows r ≡ false
    → same_key m r ≡ false
    → has_key (rows ++ m ∷ []) r ≡ false
has_key-append_ne [] m r h n = rw n refl
has_key-append_ne (x ∷ rows) m r h n = ground (arith, has_key-append_ne rows m r)

HasDistinctKeys-append :
    (rows : List EventModel) (m : EventModel)
    → HasDistinctKeys rows
    → has_key rows m ≡ false
    → HasDistinctKeys (rows ++ m ∷ [])
HasDistinctKeys-append [] m d h = (refl, tt)
HasDistinctKeys-append (r ∷ rows) m d h = elim (Bool-cases (same_key r m)) [
  | inl same ↦ absurd (ground arith)
  | inr differ ↦ (
    has_key-append_ne rows m r d.0 (same_key-sym m r ∙ differ),
    HasDistinctKeys-append rows m d.1 (ground arith),
  )
]

insert_missing-HasDistinctKeys :
    (rows ms : List EventModel) → HasDistinctKeys rows → HasDistinctKeys (insert_missing rows ms)
unfolding insert_missing
insert_missing-HasDistinctKeys rows [] d = d
insert_missing-HasDistinctKeys rows (m ∷ ms) d = elim (Bool-cases (has_key rows m)) [
  | inl there ↦ rw there (insert_missing-HasDistinctKeys rows ms d)
  | inr missing ↦
      rw missing (
        insert_missing-HasDistinctKeys (rows ++ m ∷ []) ms
          (HasDistinctKeys-append rows m d missing))
]

pub with_batch-idempotent :
    (rows : List EventModel) (es : List Event)
    → HasDistinctKeys rows
    → (with_batch (with_batch rows es) es ≡ with_batch rows es)
      × (HasKeys (with_batch rows es) (from_domain_event_batch es)
          × HasDistinctKeys (with_batch rows es))
with_batch-idempotent rows es d =
    let ms = from_domain_event_batch es in
    let there = insert_missing-HasKeys rows ms in
    (
      insert_missing-present (insert_missing rows ms) ms there,
      (there, insert_missing-HasDistinctKeys rows ms d),
    )
