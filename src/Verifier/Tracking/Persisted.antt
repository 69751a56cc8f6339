-- ===== src/Verifier/Tracking/Persisted.antt =====
-- The invariant of the verifier's maps, and what it means that as many events are verified as were sent.
use mathlib.Core.List.{Perm}
use network_actions_aggregat.Prelude.{
  ◌≡◌, refl, sym, subst, ap, ◌∙◌, Bool, true, false, not, ◌&&◌, ◌||◌, Bool-cases, inl, inr, Option,
  List, [], ◌∷◌, arith, contains, ℕ, zero, suc, length, take, drop, nat_eq,
}
use network_actions_aggregat.Dict.{lookup, Distinct, insert-Distinct}
use network_actions_aggregat.Clock.{Time}
use network_actions_aggregat.Entity.{Event, Uuid}
use network_actions_aggregat.Entity.Errors.{Error, Result, ok, err}
use network_actions_aggregat.Repository.{Context, EventRepository}
use network_actions_aggregat.Verifier.Tracking.{
  Verifier, new_verifier, has, event_ids_to_check, mark_found, mark_missing, check_size, checked,
  verify_from, verify_all, track_sent, track_sent_batch,
}
use network_actions_aggregat.Verifier.Tracking.Found.{
  mark_missing-verified, has-insert, event_ids_to_check_lem,
}
use network_actions_aggregat.Verifier.Tracking.Checked.{
  FindsIds, IsChecked, mark-IsChecked, both-IsChecked, contains-chunks,
}
use network_actions_aggregat.Verifier.Tracking.Counting.{IsWithin, IsWithin-all}

-- Only what was sent is verified or missing, and nothing is both; each map has a key once.
pub record IsTracked (v : Verifier) : Type 0 where
  pub sent_distinct : Distinct v.sent_events
  pub verified_distinct : Distinct v.verified_events
  pub verified_sent : IsWithin v.verified_events v.sent_events
  pub missing_sent : IsWithin v.missing_events v.sent_events
  pub missing_open : (id : Uuid) → has id v.missing_events ≡ true → has id v.verified_events ≡ false

pub new_verifier-IsTracked : IsTracked new_verifier
unfolding lookup
new_verifier-IsTracked = record {
  sent_distinct = tt;
  verified_distinct = tt;
  verified_sent = λ id h. h;
  missing_sent = λ id h. h;
  missing_open = λ id h. refl;
}

track_sent-IsTracked :
    (now : Time) (id : Uuid) (v : Verifier) → IsTracked v → IsTracked (track_sent now id v)
unfolding track_sent
track_sent-IsTracked now id v t = record {
  sent_distinct = insert-Distinct id now v.sent_events t.sent_distinct;
  verified_distinct = t.verified_distinct;
  verified_sent = λ j h. ground (arith, has-insert j id now v.sent_events, t.verified_sent j h);
  missing_sent = λ j h. ground (arith, has-insert j id now v.sent_events, t.missing_sent j h);
  missing_open = t.missing_open;
}

pub track_sent_batch-IsTracked :
    (now : Time) (ids : List Uuid) (v : Verifier)
    → IsTracked v
    → IsTracked (track_sent_batch now ids v)
unfolding track_sent_batch
track_sent_batch-IsTracked now [] v t = t
track_sent_batch-IsTracked now (id ∷ ids) v t =
    track_sent_batch-IsTracked now ids _ (track_sent-IsTracked now id v t)

mark_found-Distinct :
    (now : Time) (es : List Event) (v : Verifier)
    → Distinct v.verified_events
    → Distinct (mark_found now es v).verified_events
unfolding mark_found
mark_found-Distinct now [] v d = d
mark_found-Distinct now (e ∷ es) v d =
    mark_found-Distinct now es _ (insert-Distinct e.event_id now v.verified_events d)

-- If as many events are verified as were sent, all that were sent are verified.
pub all_verified :
    (v : Verifier)
    → IsTracked v
    → length v.verified_events ≡ length v.sent_events
    → (id : Uuid) → has id v.sent_events ≡ true
    → has id v.verified_events ≡ true
all_verified v t l =
    IsWithin-all v.verified_events v.sent_events t.verified_distinct t.sent_distinct t.verified_sent
      l

or_right : (a b c : Bool) → (b ≡ true → c ≡ true) → (a || b) ≡ true → (a || c) ≡ true
or_right true b c f h = refl
or_right false b c f h = f h

both_of : (a b : Bool) → (a && not b) ≡ true → (a ≡ true) × (b ≡ false)
both_of true false h = (refl, refl)
both_of true true h = absurd (cc)
both_of false b h = absurd (cc)

-- A check of some ids, of which only those that were sent and not verified were asked for.
pub record Asked (stored : Uuid → Bool) (id : Uuid) (ids : List Uuid) (v v' : Verifier)
    : Type 0 where
  pub asked : Bool
  pub listed : asked ≡ true → contains ids id ≡ true
  pub result : IsChecked (stored id) asked id v v'

module _ (stored : Uuid → Bool) (id : Uuid) (ids : List Uuid) (v v' : Verifier)
    (a : Asked stored id ids v v')
    (listed : contains ids id ≡ has id v.sent_events && not (has id v.verified_events))
    (t : IsTracked v) where
  still_sent : has id v'.sent_events ≡ has id v.sent_events
  still_sent = ap (has id) a.result.sent

  asked_open_now :
      a.asked ≡ true → (has id v.sent_events ≡ true) × (has id v.verified_events ≡ false)
  asked_open_now h =
      both_of (has id v.sent_events) (has id v.verified_events) (sym listed ∙ a.listed h)

  asked_sent : has id v'.verified_events ≡ true → has id v'.sent_events ≡ true
  asked_sent h = elim (Bool-cases a.asked) [
    | inl yes_asked ↦ still_sent ∙ (asked_open_now yes_asked).0
    | inr not_asked ↦ still_sent ∙ t.verified_sent id (sym (a.result.verified ∙ rw not_asked) ∙ h)
  ]

  asked_missing : has id v'.missing_events ≡ true → has id v'.sent_events ≡ true
  asked_missing h = elim (Bool-cases a.asked) [
    | inl yes_asked ↦ still_sent ∙ (asked_open_now yes_asked).0
    | inr not_asked ↦ still_sent ∙ t.missing_sent id (sym (a.result.missing ∙ rw not_asked) ∙ h)
  ]

  asked_open : has id v'.missing_events ≡ true → has id v'.verified_events ≡ false
  asked_open h = elim (Bool-cases a.asked) [
    | inl yes_asked ↦
        let lost : not (stored id) ≡ true = sym (a.result.missing ∙ rw yes_asked) ∙ h in
        a.result.verified ∙ ground (arith, lost, yes_asked, (asked_open_now yes_asked).1)
    | inr not_asked ↦
        (a.result.verified ∙ rw not_asked)
        ∙ t.missing_open id (sym (a.result.missing ∙ rw not_asked) ∙ h)
  ]

module _ {Db : Type 0} (repo : EventRepository Db) (stored : Db → Uuid → Bool)
    (finds : FindsIds repo stored) (ctx : Context) (now : Time) (db : Db) where
  checked-Asked :
      (id : Uuid) (ids : List Uuid) (r : Result (List Event)) (v : Verifier)
      (next : Verifier → Verifier × Option Error)
      → repo.get_by_event_ids ctx (take check_size ids) db ≡ r
      → ((u : Verifier) → Asked (stored db) id (drop check_size ids) u (next u).0)
      → Asked (stored db) id ids v (checked repo ctx now db (take check_size ids) r v next).0
  checked-Asked id ids (ok es) v next e n =
      let batch = take check_size ids in
      let u = mark_missing now es batch (mark_found now es v) in
      record {
        asked = contains batch id || (n u).asked;
        listed = λ h. contains-chunks id ids ∙ or_right (contains batch id) _ _ (n u).listed h;
        result =
            both-IsChecked (stored db id) (contains batch id) (n u).asked id v u (next u).0
              (mark-IsChecked (stored db id) id now es batch v (finds ctx batch db es e id))
              (n u).result;
      }
  checked-Asked id ids (err x) v next e n = record {
    asked = false;
    listed = λ h. absurd (cc);
    result = record { sent = refl; verified = refl; missing = refl };
  }

  verify_from-Asked :
      (id : Uuid) (fuel : ℕ) (ids : List Uuid) (v : Verifier)
      → Asked (stored db) id ids v (verify_from repo ctx now db fuel ids v).0
  unfolding verify_from
  verify_from-Asked id zero ids v = record {
    asked = false;
    listed = λ h. absurd (cc);
    result = record { sent = refl; verified = refl; missing = refl };
  }
  verify_from-Asked id (suc fuel) [] v = record {
    asked = false;
    listed = λ h. absurd (cc);
    result = record { sent = refl; verified = refl; missing = refl };
  }
  verify_from-Asked id (suc fuel) (j ∷ ids) v =
      checked-Asked id (j ∷ ids) _ v
        (λ u. verify_from repo ctx now db fuel (drop check_size (j ∷ ids)) u) refl
        (λ u. verify_from-Asked id fuel (drop check_size (j ∷ ids)) u)

  checked-Distinct :
      (batch : List Uuid) (r : Result (List Event)) (v : Verifier)
      (next : Verifier → Verifier × Option Error)
      → ((u : Verifier) → Distinct u.verified_events → Distinct (next u).0.verified_events)
      → Distinct v.verified_events
      → Distinct (checked repo ctx now db batch r v next).0.verified_events
  checked-Distinct batch (ok es) v next n d = n _ (
      subst Distinct (sym (mark_missing-verified 0 now es batch (mark_found now es v)))
        (mark_found-Distinct now es v d))
  checked-Distinct batch (err x) v next n d = d

  verify_from-Distinct :
      (fuel : ℕ) (ids : List Uuid) (v : Verifier)
      → Distinct v.verified_events
      → Distinct (verify_from repo ctx now db fuel ids v).0.verified_events
  unfolding verify_from
  verify_from-Distinct zero ids v d = d
  verify_from-Distinct (suc fuel) [] v d = d
  verify_from-Distinct (suc fuel) (j ∷ ids) v d =
      checked-Distinct _ _ v _ (λ u k. verify_from-Distinct fuel (drop check_size (j ∷ ids)) u k) d

  pub verify_all-Asked :
      (order : List Uuid → List Uuid) (v : Verifier) (id : Uuid)
      → Asked (stored db) id (event_ids_to_check order v) v (verify_all repo ctx now db order v).0
  unfolding verify_all
  verify_all-Asked order v id =
      verify_from-Asked id (length (event_ids_to_check order v)) (event_ids_to_check order v) v

  -- Whatever `VerifyAll` returns, an error after some batches included, the maps of the verifier stay
  -- consistent: only events that were sent are verified or missing, and none is both.
  pub verify_all-IsTracked :
      (order : List Uuid → List Uuid) (v : Verifier)
      → ((l : List Uuid) → Perm (order l) l)
      → IsTracked v
      → IsTracked (verify_all repo ctx now db order v).0
  unfolding verify_all
  verify_all-IsTracked order v perm t =
      let v' = (verify_all repo ctx now db order v).0 in
      let listed = λ (id : Uuid). event_ids_to_check_lem order v id perm in
      let c = λ (id : Uuid). verify_all-Asked order v id in
      record {
        sent_distinct = subst Distinct (sym (c 0).result.sent) t.sent_distinct;
        verified_distinct =
            verify_from-Distinct _ (event_ids_to_check order v) v t.verified_distinct;
        verified_sent = λ id h.
            asked_sent (stored db) id (event_ids_to_check order v) v v' (c id) (listed id) t h;
        missing_sent = λ id h.
            asked_missing (stored db) id (event_ids_to_check order v) v v' (c id) (listed id) t h;
        missing_open = λ id h.
            asked_open (stored db) id (event_ids_to_check order v) v v' (c id) (listed id) t h;
      }
