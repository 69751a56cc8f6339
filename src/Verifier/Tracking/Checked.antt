-- ===== src/Verifier/Tracking/Checked.antt =====
-- `VerifyAll` over a repository that finds events by their ids.
use mathlib.Core.List.{Perm}
use network_actions_aggregat.Prelude.{
  ◌≡◌, refl, sym, subst, ap, ◌∙◌, ◌≤◌, Bool, not, ◌&&◌, ◌||◌, Option, none, List, [], ◌∷◌, arith,
  contains, ℕ, zero, suc, length, length-drop, take, drop, take-append-drop, if◌then◌else◌, nat_eq,
}
use network_actions_aggregat.Clock.{Time}
use network_actions_aggregat.Entity.{Event, Uuid}
use network_actions_aggregat.Entity.Errors.{Error, Result, ok, err}
use network_actions_aggregat.Repository.{Context, EventRepository}
use network_actions_aggregat.Verifier.Tracking.{
  Verifier, has, has_id, event_ids_to_check, mark_found, mark_missing, check_size, checked,
  verify_from, verify_all,
}
use network_actions_aggregat.Verifier.Tracking.Found.{
  mark_found-sent, mark_found-verified, mark_found-missing, mark_missing-sent,
  mark_missing-verified, mark_missing-missing, contains-append, event_ids_to_check_lem,
}

-- `GetByEventIDs` finds, among the ids that are asked for, those that are stored.
abbrev pub FindsIds : {Db : Type 0} → EventRepository Db → (Db → Uuid → Bool) → Type 0
FindsIds {Db} repo stored =
    (ctx : Context) (ids : List Uuid) (db : Db) (es : List Event)
    → repo.get_by_event_ids ctx ids db ≡ ok es
    → (id : Uuid) → has_id es id ≡ contains ids id && stored db id

-- After a check of some ids: what was sent, is verified and is missing, for one id.
pub record IsChecked (stored : Bool) (asked : Bool) (id : Uuid) (v v' : Verifier) : Type 0 where
  pub sent : v'.sent_events ≡ v.sent_events
  pub verified : has id v'.verified_events ≡ (asked && stored) || has id v.verified_events
  pub missing : has id v'.missing_events ≡ (if asked then not stored else has id v.missing_events)

pub mark-IsChecked :
    (stored : Bool) (id : Uuid) (now : Time) (es : List Event) (ids : List Uuid) (v : Verifier)
    → has_id es id ≡ contains ids id && stored
    → IsChecked stored (contains ids id) id v (mark_missing now es ids (mark_found now es v))
mark-IsChecked stored id now es ids v h = record {
  sent = mark_missing-sent id now es ids (mark_found now es v) ∙ mark_found-sent id now es v;
  verified =
      ap (has id) (mark_missing-verified id now es ids (mark_found now es v))
      ∙ (mark_found-verified id now es v ∙ ap (λ b. b || has id v.verified_events) h);
  missing =
      mark_missing-missing id now es ids (mark_found now es v)
      ∙ ground (arith, mark_found-missing id now es v, h);
}

pub both-IsChecked :
    (stored a b : Bool) (id : Uuid) (u v w : Verifier)
    → IsChecked stored a id u v
    → IsChecked stored b id v w
    → IsChecked stored (a || b) id u w
both-IsChecked stored a b id u v w h k = record {
  sent = k.sent ∙ h.sent;
  verified = ground (arith, h.verified, k.verified);
  missing = ground (arith, h.missing, k.missing);
}

pub contains-chunks :
    (id : Uuid) (ids : List Uuid)
    → contains ids id ≡ contains (take check_size ids) id || contains (drop check_size ids) id
contains-chunks id ids =
    ap (λ l. contains l id) (sym (take-append-drop check_size ids))
    ∙ contains-append id (take check_size ids) (drop check_size ids)

module _ {Db : Type 0} (repo : EventRepository Db) (stored : Db → Uuid → Bool)
    (finds : FindsIds repo stored) (ctx : Context) (now : Time) (db : Db) (id : Uuid) where
  -- A batch that was read, and the rest.
  checked-IsChecked :
      (batch : List Uuid) (r : Result (List Event)) (v : Verifier)
      (next : Verifier → Verifier × Option Error) (rest : Bool)
      → repo.get_by_event_ids ctx batch db ≡ r
      → ((u : Verifier) → (next u).1 ≡ none → IsChecked (stored db id) rest id u (next u).0)
      → (checked repo ctx now db batch r v next).1 ≡ none
      → IsChecked
          (stored db id)
          (contains batch id || rest)
          id
          v
          (checked repo ctx now db batch r v next).0
  checked-IsChecked batch (ok es) v next rest e n h =
      let u = mark_missing now es batch (mark_found now es v) in
      both-IsChecked (stored db id) (contains batch id) rest id v u (next u).0
        (mark-IsChecked (stored db id) id now es batch v (finds ctx batch db es e id)) (n u h)
  checked-IsChecked batch (err x) v next rest e n h = absurd (cc)

  -- With fuel for each id, the loop reaches them all.
  verify_from-IsChecked :
      (fuel : ℕ) (ids : List Uuid) (v : Verifier)
      → length ids ≤ fuel
      → (verify_from repo ctx now db fuel ids v).1 ≡ none
      → IsChecked (stored db id) (contains ids id) id v (verify_from repo ctx now db fuel ids v).0
  unfolding verify_from
  verify_from-IsChecked zero [] v l h = record { sent = refl; verified = refl; missing = refl }
  verify_from-IsChecked zero (j ∷ ids) v l h = absurd (omega arith)
  verify_from-IsChecked (suc fuel) [] v l h = record {
    sent = refl;
    verified = refl;
    missing = refl;
  }
  verify_from-IsChecked (suc fuel) (j ∷ ids) v l h =
      subst
        (λ b.
          IsChecked (stored db id) b id v (verify_from repo ctx now db (suc fuel) (j ∷ ids) v).0)
        (sym (contains-chunks id (j ∷ ids)))
        (checked-IsChecked (take check_size (j ∷ ids)) _ v
          (λ u. verify_from repo ctx now db fuel (drop check_size (j ∷ ids)) u)
          (contains (drop check_size (j ∷ ids)) id) refl
          (λ u k.
            verify_from-IsChecked fuel (drop check_size (j ∷ ids)) u
              (omega (arith, length-drop check_size (j ∷ ids), l)) k)
          h)

  -- A `VerifyAll` that returns nil has asked for every event that was sent and not yet verified, however
  -- many batches that takes: afterwards an event is verified exactly if it was before or it was sent and
  -- is stored, of those asked for the missing ones are those that are not stored, and the record of the
  -- sent events stays. The repository finds events by their ids; the map is ranged over in some order.
  pub verify_all-IsChecked :
      (order : List Uuid → List Uuid) (v : Verifier)
      → ((l : List Uuid) → Perm (order l) l)
      → (verify_all repo ctx now db order v).1 ≡ none
      → IsChecked
          (stored db id)
          (has id v.sent_events && not (has id v.verified_events))
          id
          v
          (verify_all repo ctx now db order v).0
  unfolding verify_all
  verify_all-IsChecked order v perm h =
      let ids = event_ids_to_check order v in
      subst
        (λ b. IsChecked (stored db id) b id v (verify_from repo ctx now db (length ids) ids v).0)
        (event_ids_to_check_lem order v id perm)
        (verify_from-IsChecked (length ids) ids v (omega arith) h)
