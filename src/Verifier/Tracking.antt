-- ===== src/Verifier/Tracking.antt =====
-- cmd/generator/verifier.go: the tracking of sent events, `VerifyAll` and `Stats`. The success rate, which
-- is only printed, is left out of the statistics.
pub mod Found
pub mod Checked
pub mod Counting
pub mod Persisted
use network_actions_aggregat.Prelude.{
  ℕ, zero, suc, ◌+◌, ◌-◌, ◌/◌, Bool, true, false, not, ◌&&◌, Option, none, some, List, [], ◌∷◌, map,
  foldl, length, select, take, drop, ltb, nat_beq, nat_eq, if◌then◌else◌,
}
use network_actions_aggregat.Dict.{Dict, lookup, insert, delete}
use network_actions_aggregat.Clock.{Time}
use network_actions_aggregat.Entity.{Event, Uuid}
use network_actions_aggregat.Entity.Errors.{Error, Result, ok, err, errorf}
use network_actions_aggregat.Repository.{Context, EventRepository}

-- Times by event id.
pub record Verifier : Type 0 where
  pub sent_events : Dict Uuid Time
  pub verified_events : Dict Uuid Time
  pub missing_events : Dict Uuid Time

-- `NewVerifier`, and the state after `Reset`.
abbrev pub new_verifier : Verifier
new_verifier = record { sent_events = []; verified_events = []; missing_events = [] }

abbrev pub is_some : Option Time → Bool
is_some none = false
is_some (some t) = true

-- `_, ok := m[id]`.
abbrev pub has : Uuid → Dict Uuid Time → Bool
has id m = is_some (lookup id m)

-- `TrackSent`, with the reading of the clock.
unfoldable pub track_sent : Time → Uuid → Verifier → Verifier
track_sent now id v = record v { sent_events = insert id now v.sent_events }

-- `TrackSentBatch`: one reading of the clock for all.
unfoldable pub track_sent_batch : Time → List Uuid → Verifier → Verifier
track_sent_batch now [] v = v
track_sent_batch now (id ∷ ids) v = track_sent_batch now ids (track_sent now id v)

-- The ids of `sentEvents` that are not in `verifiedEvents`; `order` is that of the `range` loop.
unfoldable pub event_ids_to_check : (List Uuid → List Uuid) → Verifier → List Uuid
event_ids_to_check order v =
    select (λ id. not (has id v.verified_events)) (order (map (λ p. p.0) v.sent_events))

-- `foundIDs[id]`.
abbrev pub has_id : List Event → Uuid → Bool
has_id [] id = false
has_id (e ∷ es) id = if nat_beq e.event_id id then true else has_id es id

-- The loop over the events that were found.
unfoldable pub mark_found : Time → List Event → Verifier → Verifier
mark_found now [] v = v
mark_found now (e ∷ es) v = mark_found now es (record v {
  verified_events = insert e.event_id now v.verified_events;
  missing_events = delete e.event_id v.missing_events;
})

-- The loop over the batch, for those that were not.
unfoldable pub mark_missing : Time → List Event → List Uuid → Verifier → Verifier
mark_missing now es [] v = v
mark_missing now es (id ∷ ids) v =
    mark_missing now es ids
      (if has_id es id then v else record v { missing_events = insert id now v.missing_events })

abbrev pub check_size : ℕ
check_size = 1_000

module _ {Db : Type 0} (repo : EventRepository Db) (ctx : Context) (now : Time) (db : Db) where
  -- A batch that was read, and what follows; or the error of the read.
  abbrev pub checked :
      List Uuid
      → Result (List Event)
      → Verifier
      → (Verifier → Verifier × Option Error)
      → Verifier × Option Error
  checked batch (ok es) v next = next (mark_missing now es batch (mark_found now es v))
  checked batch (err e) v next = (v, some (errorf "failed to verify events" e))

  -- The loop of `VerifyAll` over the batches, from the ids that are left, with fuel.
  unfoldable pub verify_from : ℕ → List Uuid → Verifier → Verifier × Option Error
  verify_from zero ids v = (v, none)
  verify_from (suc fuel) [] v = (v, none)
  verify_from (suc fuel) (id ∷ ids) v =
      let batch = take check_size (id ∷ ids) in
      checked batch (repo.get_by_event_ids ctx batch db) v
        (λ v'. verify_from fuel (drop check_size (id ∷ ids)) v')

  -- `VerifyAll`.
  unfoldable pub verify_all : (List Uuid → List Uuid) → Verifier → Verifier × Option Error
  verify_all order v = let ids = event_ids_to_check order v in verify_from (length ids) ids v

-- `verifiedAt.Sub(sentAt)` if the event was sent; the clock does not go back.
abbrev pub latency : Time → Option Time → ℕ
latency verified_at none = 0
latency verified_at (some sent_at) = verified_at.nanos - sent_at.nanos

-- The loop of `Stats` over the verified events.
unfoldable pub total_latency : Dict Uuid Time → Dict Uuid Time → ℕ
total_latency sent [] = 0
total_latency sent ((id, t) ∷ verified) = latency t (lookup id sent) + total_latency sent verified

abbrev pub average : ℕ → ℕ → ℕ
average total n = if ltb 0 n then total / n else 0

-- `Stats`, without the rate. Only sent events are verified, so that `pending` is not negative.
pub record VerificationStats : Type 0 where
  pub total_sent : ℕ
  pub verified : ℕ
  pub missing : ℕ
  pub pending : ℕ
  pub avg_latency : ℕ

unfoldable pub stats : Verifier → VerificationStats
stats v = record {
  total_sent = length v.sent_events;
  verified = length v.verified_events;
  missing = length v.missing_events;
  pending = length v.sent_events - length v.verified_events;
  avg_latency = average (total_latency v.sent_events v.verified_events) (length v.verified_events);
}
