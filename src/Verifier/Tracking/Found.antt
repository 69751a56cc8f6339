-- ===== src/Verifier/Tracking/Found.antt =====
-- What marking the found and the missing events does to the two maps of the verifier.
use network_actions_aggregat.Prelude.{
  ◌≡◌, refl, ap, ap₂, ◌∙◌, Bool, true, false, not, ◌&&◌, ◌||◌, Bool-cases, inl, inr, List, [], ◌∷◌,
  ◌++◌, arith, contains, nat_beq, nat_beq_iff, nat_eq, map, select, if◌then◌else◌,
}
use mathlib.Core.List.{Perm, Permᴰ}
use mathlib.Core.Bool.{Bool-set}
use mathlib.Core.Logic.{∥∥₁_elim}
use network_actions_aggregat.Dict.{Dict, lookup, insert, delete, lookup-insert, lookup-delete}
use network_actions_aggregat.Clock.{Time}
use network_actions_aggregat.Entity.{Event, Uuid}
use network_actions_aggregat.Verifier.Tracking.{
  Verifier, has, has_id, event_ids_to_check, mark_found, mark_missing, track_sent, track_sent_batch,
}

pub has-insert :
    (id j : Uuid) (t : Time) (m : Dict Uuid Time)
    → has id (insert j t m) ≡ (if nat_beq j id then true else has id m)
has-insert id j t m = elim (Bool-cases (nat_beq j id)) [
  | inl same ↦ rw (lookup-insert, same) refl
  | inr other ↦ rw (lookup-insert, other) refl
]

pub has-delete :
    (id j : Uuid) (m : Dict Uuid Time)
    → has id (delete j m) ≡ (if nat_beq j id then false else has id m)
has-delete id j m = elim (Bool-cases (nat_beq j id)) [
  | inl same ↦ rw (lookup-delete, same) refl
  | inr other ↦ rw (lookup-delete, other) refl
]

module _ (id : Uuid) (now : Time) where
  pub mark_found-sent :
      (es : List Event) (v : Verifier) → (mark_found now es v).sent_events ≡ v.sent_events
  unfolding mark_found
  mark_found-sent [] v = refl
  mark_found-sent (e ∷ es) v = mark_found-sent es _

  pub mark_found-verified :
      (es : List Event) (v : Verifier)
      → has id (mark_found now es v).verified_events ≡ has_id es id || has id v.verified_events
  unfolding mark_found
  mark_found-verified [] v = refl
  mark_found-verified (e ∷ es) v =
      mark_found-verified es _ ∙ ground (arith, has-insert id e.event_id now v.verified_events)

  pub mark_found-missing :
      (es : List Event) (v : Verifier)
      → has id (mark_found now es v).missing_events ≡ not (has_id es id) && has id v.missing_events
  unfolding mark_found
  mark_found-missing [] v = refl
  mark_found-missing (e ∷ es) v =
      mark_found-missing es _ ∙ ground (arith, has-delete id e.event_id v.missing_events)

  pub mark_missing-sent :
      (es : List Event) (ids : List Uuid) (v : Verifier)
      → (mark_missing now es ids v).sent_events ≡ v.sent_events
  unfolding mark_missing
  mark_missing-sent es [] v = refl
  mark_missing-sent es (j ∷ ids) v = mark_missing-sent es ids _ ∙ ground arith

  pub mark_missing-verified :
      (es : List Event) (ids : List Uuid) (v : Verifier)
      → (mark_missing now es ids v).verified_events ≡ v.verified_events
  unfolding mark_missing
  mark_missing-verified es [] v = refl
  mark_missing-verified es (j ∷ ids) v = mark_missing-verified es ids _ ∙ ground arith

  same_found : (es : List Event) (j : Uuid) → nat_beq j id ≡ true → has_id es j ≡ has_id es id
  same_found es j h = ap (has_id es) ((nat_beq_iff j id).0 h)

  marked_one :
      (es : List Event) (j : Uuid) (v : Verifier)
      → has id
          (if has_id es j
            then v
            else record v { missing_events = insert j now v.missing_events }).missing_events
        ≡ (if nat_beq j id && not (has_id es id) then true else has id v.missing_events)
  marked_one es j v = elim (Bool-cases (has_id es j)) [
    | inl found ↦ rw found (ground (arith, same_found es j))
    | inr lost ↦ rw lost (has-insert id j now v.missing_events ∙ ground (arith, same_found es j))
  ]

  pub mark_missing-missing :
      (es : List Event) (ids : List Uuid) (v : Verifier)
      → has id (mark_missing now es ids v).missing_events
        ≡ (if contains ids id && not (has_id es id) then true else has id v.missing_events)
  unfolding mark_missing
  mark_missing-missing es [] v = refl
  mark_missing-missing es (j ∷ ids) v =
      mark_missing-missing es ids _ ∙ ground (arith, marked_one es j v)

  pub track_sent_batch-has :
      (ids : List Uuid) (v : Verifier)
      → has id (track_sent_batch now ids v).sent_events ≡ contains ids id || has id v.sent_events
  unfolding track_sent_batch track_sent
  track_sent_batch-has [] v = refl
  track_sent_batch-has (j ∷ ids) v =
      track_sent_batch-has ids _ ∙ ground (arith, has-insert id j now v.sent_events)

pub contains-append :
    (id : Uuid) (xs ys : List Uuid) → contains (xs ++ ys) id ≡ contains xs id || contains ys id
contains-append id [] ys = refl
contains-append id (x ∷ xs) ys = ground (arith, contains-append id xs ys)

pub contains-select :
    (p : Uuid → Bool) (id : Uuid) (xs : List Uuid)
    → contains (select p xs) id ≡ contains xs id && p id
contains-select p id [] = refl
contains-select p id (x ∷ xs) = elim (Bool-cases (nat_beq x id)) [
  | inl same ↦ ground (arith, contains-select p id xs, ap p ((nat_beq_iff x id).0 same))
  | inr other ↦ ground (arith, contains-select p id xs)
]

-- The keys of a map, in any order.
keys_has : (id : Uuid) (m : Dict Uuid Time) → contains (map (λ p. p.0) m) id ≡ has id m
unfolding lookup
keys_has id [] = refl
keys_has id ((j, t) ∷ m) = ground (arith, keys_has id m)

contains-Permᴰ : (id : Uuid) {xs ys : List Uuid} → Permᴰ xs ys → contains xs id ≡ contains ys id
contains-Permᴰ id Permᴰ.nil = refl
contains-Permᴰ id (Permᴰ.cons e p) =
    ap₂ (λ x r. if nat_beq x id then true else r) e (contains-Permᴰ id p)
contains-Permᴰ id (Permᴰ.swap {l = l} e f) =
    ap₂ (λ x y. if nat_beq x id then true else (if nat_beq y id then true else contains l id)) e f
    ∙ ground arith
contains-Permᴰ id (Permᴰ.trans p q) = contains-Permᴰ id p ∙ contains-Permᴰ id q

pub contains-Perm : (id : Uuid) {xs ys : List Uuid} → Perm xs ys → contains xs id ≡ contains ys id
contains-Perm id p = ∥∥₁_elim p (Bool-set _ _) (contains-Permᴰ id)

-- The ids that `VerifyAll` checks are those that were sent and are not verified.
pub event_ids_to_check_lem :
    (order : List Uuid → List Uuid) (v : Verifier) (id : Uuid)
    → ((l : List Uuid) → Perm (order l) l)
    → contains (event_ids_to_check order v) id
      ≡ has id v.sent_events && not (has id v.verified_events)
unfolding event_ids_to_check
event_ids_to_check_lem order v id perm =
    contains-select _ id (order (map (λ p. p.0) v.sent_events))
    ∙ ap (λ b. b && not (has id v.verified_events))
        (contains-Perm id (perm (map (λ p. p.0) v.sent_events)) ∙ keys_has id v.sent_events)
