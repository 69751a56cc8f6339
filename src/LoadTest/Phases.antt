-- ===== src/LoadTest/Phases.antt =====
-- cmd/generator/main.go: the phase that sends the events and the phase that waits for them, together.
use network_actions_aggregat.Prelude.{
  ℕ, ◌<◌, ◌≡◌, refl, ap, ◌∙◌, Bool, true, false, none, List, [], ◌∷◌, map, arith,
}
use network_actions_aggregat.Dict.{lookup}
use network_actions_aggregat.Clock.{Time}
use network_actions_aggregat.Entity.{Event, Uuid}
use network_actions_aggregat.Repository.{EventRepository}
use network_actions_aggregat.Verifier.Tracking.{
  Verifier, new_verifier, has, has_id, track_sent, track_sent_batch,
}
use network_actions_aggregat.Verifier.Tracking.Checked.{FindsIds}
use network_actions_aggregat.Verifier.Tracking.Persisted.{
  IsTracked, new_verifier-IsTracked, track_sent_batch-IsTracked,
}
use network_actions_aggregat.LoadTest.{Config, Metrics, Wait, returned, wait_for_persistence}
use network_actions_aggregat.LoadTest.Persistence.{
  Permutes, ever_stored, wait_for_persistence-IsPersisted,
}
use network_actions_aggregat.LoadTest.Sending.{
  Senders, start, put, stop, close, receive, succeed, fail, report, exit, here, next, send_result,
}
use network_actions_aggregat.LoadTest.Sending.Outcome.{Sent, stops, concat, run-IsSent}

-- A verifier that has only tracked.
pub record IsFresh (v : Verifier) : Type 0 where
  pub tracked : IsTracked v
  pub unverified : v.verified_events ≡ []

track_sent_batch-verified :
    (now : Time) (ids : List Uuid) (v : Verifier)
    → (track_sent_batch now ids v).verified_events ≡ v.verified_events
unfolding track_sent_batch track_sent
track_sent_batch-verified now [] v = refl
track_sent_batch-verified now (id ∷ ids) v = track_sent_batch-verified now ids (track_sent now id v)

module _ (workers : ℕ) (batches : List (List Event)) (m0 : Metrics) where
  pub run-IsFresh :
      (s : Senders (Metrics × Verifier))
      → Sent workers batches m0 new_verifier s
      → IsFresh s.shared.1
  unfolding start
  run-IsFresh s here = record { tracked = new_verifier-IsTracked; unverified = refl }
  run-IsFresh s (next r (put b bs h k l)) = run-IsFresh _ r
  run-IsFresh s (next r (stop b bs h k)) = run-IsFresh _ r
  run-IsFresh s (next r (close h k)) = run-IsFresh _ r
  run-IsFresh s (next r (receive b bs n h k)) = run-IsFresh _ r
  run-IsFresh s' (next {s} r (succeed now xs b ys h)) =
      let i = run-IsFresh s r in
      let ids = map (λ e. e.event_id) b in
      record {
        tracked = track_sent_batch-IsTracked now ids s.shared.1 i.tracked;
        unverified = track_sent_batch-verified now ids s.shared.1 ∙ i.unverified;
      }
  run-IsFresh s (next r (fail xs b ys h)) = run-IsFresh _ r
  run-IsFresh s (next r (report n h k)) = run-IsFresh _ r
  run-IsFresh s (next r (exit n h k l)) = run-IsFresh _ r

  module _ {Db : Type 0} (repo : EventRepository Db) (stored : Db → Uuid → Bool)
      (finds : FindsIds repo stored) (config : Config) where
    -- The two phases together: if the senders of a new run, undisturbed and with a worker at least, return
    -- no error, and `waitForPersistence` then returns nil, every event that was generated was found in the
    -- database at one of the checks. The repository finds events by their ids, and each `range` is in
    -- some order.
    pub all_stored_lem :
        (s : Senders (Metrics × Verifier)) (r : Sent workers batches m0 new_verifier s)
        (xs : List (Wait Db)) (m : Metrics)
        → 0 < workers
        → stops workers batches m0 new_verifier r ≡ 0
        → s.exited ≡ workers
        → send_result s ≡ none
        → Permutes stored xs
        → (wait_for_persistence repo config xs s.shared.1 m).0 ≡ returned none
        → (id : Uuid) → has_id (concat batches) id ≡ true
        → ever_stored stored id xs ≡ true
    unfolding lookup
    all_stored_lem s r xs m w n h e p done id made =
        let i = run-IsFresh s r in
        let sent = run-IsSent workers batches m0 new_verifier s r w n h in
        let all =
          wait_for_persistence-IsPersisted repo stored finds config xs s.shared.1 m i.tracked p
            done in
        let verified : has id s.shared.1.verified_events ≡ false = ap (has id) i.unverified in
        ground (arith, all.all_stored id (sent.tracked e id ∙ ground (arith, made)), verified)
