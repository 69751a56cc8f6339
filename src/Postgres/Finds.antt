-- ===== src/Postgres/Finds.antt =====
-- `GetByEventIDs` over the documented behaviour of the database.
use mathlib.Core.List.{Perm}
use mathlib.Core.List.Perm.{map as perm_map}
use network_actions_aggregat.Prelude.{
  ◌≡◌, refl, sym, ap, ◌∙◌, Bool, ◌&&◌, Bool-cases, inl, inr, List, [], ◌∷◌, map, arith, contains,
  nat_beq_iff, select,
}
use network_actions_aggregat.Entity.{Event, Uuid}
use network_actions_aggregat.Entity.Errors.{Error, Result, ok, err, wrap_error, ◌>>=◌}
use network_actions_aggregat.Models.{EventModel, to_domain}
use network_actions_aggregat.Models
use network_actions_aggregat.Verifier.Tracking.{has_id}
use network_actions_aggregat.Verifier.Tracking.Found.{contains-Perm}
use network_actions_aggregat.Verifier.Tracking.Checked.{FindsIds}
use network_actions_aggregat.Postgres.Sql.{Gorm, SqlLaws, hold, id_in}
use network_actions_aggregat.Postgres.{get_by_event_ids, event_repository}

-- An event id in a table.
abbrev pub has_row : List EventModel → Uuid → Bool
has_row rows id = contains (map (λ m. m.event_id) rows) id

has_id-contains :
    (es : List Event) (id : Uuid) → has_id es id ≡ contains (map (λ e. e.event_id) es) id
has_id-contains [] id = refl
has_id-contains (e ∷ es) id = ground (arith, has_id-contains es id)

asked_rows :
    (ids : List Uuid) (rows : List EventModel) (id : Uuid)
    → contains (map (λ e. e.event_id) (map to_domain (select (hold (id_in ids ∷ [])) rows))) id
      ≡ contains ids id && has_row rows id
unfolding to_domain
asked_rows ids [] id = ground arith
asked_rows ids (m ∷ rows) id = elim (Bool-cases (contains ids m.event_id)) [
  | inl asked ↦ rw asked (
      ground (
        arith,
        asked_rows ids rows id,
        ap (contains ids) {x = m.event_id} {y = id},
        nat_beq_iff m.event_id id,
      ))
  | inr other ↦ rw other (ground (arith, asked_rows ids rows id, nat_beq_iff m.event_id id))
]

module _ {Db : Type 0} (sql : Gorm Db) (laws : SqlLaws sql) (not_found : Error → Bool) where
  open laws use {event_rows, finds_events}

  -- Over a database that keeps its documented behaviour, `GetByEventIDs` finds, among the ids that it is
  -- asked for, exactly those that have a row in `events_raw`.
  pub get_by_event_ids-FindsIds :
      FindsIds (event_repository sql not_found) (λ db id. has_row (event_rows db) id)
  unfolding get_by_event_ids Models.to_domain_event_batch
  get_by_event_ids-FindsIds ctx [] db es h id = ap (λ l. has_id l id) (sym (ok_value h))
    where
      ok_value : {a b : List Event} → ok a ≡ ok b → a ≡ b
      ok_value e = cc
  get_by_event_ids-FindsIds ctx (j ∷ ids) db es h id =
      from_result _ (λ ms f. finds_events ctx _ _ db ms f) h
    where
      ok_value : {a b : List Event} → ok a ≡ ok b → a ≡ b
      ok_value e = cc

      from_result :
          (r : Result (List EventModel))
          → ((ms : List EventModel)
              → r ≡ ok ms
              → Perm ms (select (hold (id_in (j ∷ ids) ∷ [])) (event_rows db)))
          → (wrap_error "failed to get events by ids" r >>= λ ms. ok (map to_domain ms)) ≡ ok es
          → has_id es id ≡ contains (j ∷ ids) id && has_row (event_rows db) id
      from_result (ok ms) p e =
          ap (λ l. has_id l id) (sym (ok_value e))
          ∙ (has_id-contains (map to_domain ms) id
              ∙ (contains-Perm id (perm_map (λ x. x.event_id) (perm_map to_domain (p ms refl)))
                  ∙ asked_rows (j ∷ ids) (event_rows db) id))
      from_result (err x) p e = absurd (cc)
