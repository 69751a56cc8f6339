-- ===== src/LoadTest/Verdict.antt =====
-- cmd/generator/main.go: the phases of `run` one after another, and what it means that the load test passes.
use network_actions_aggregat.Prelude.{
  ℕ, ◌<◌, ◌≡◌, refl, sym, subst, ◌∙◌, Bool, true, String, Option, none, some, List, [], ◌∷◌, length,
  arith,
}
use network_actions_aggregat.Clock.{Time}
use network_actions_aggregat.Entity.{Event, Uuid}
use network_actions_aggregat.Entity.Errors.{Error, ok, errorf, message}
use network_actions_aggregat.Aggregation.{PeriodAggregation}
use network_actions_aggregat.Repository.{Context, EventRepository, AggregationRepository}
use network_actions_aggregat.Verifier.{verify_aggregations}
use network_actions_aggregat.Verifier.Comparison.{Confirms, verify_aggregations-none}
use network_actions_aggregat.Verifier.Tracking.{Verifier, new_verifier, has_id, stats}
use network_actions_aggregat.Verifier.Tracking.Checked.{FindsIds}
use network_actions_aggregat.LoadTest.{
  Config, Metrics, Wait, Waiting, waiting, returned, wait_for_persistence,
  verify_duplicates_rejected,
}
use network_actions_aggregat.LoadTest.Persistence.{
  Permutes, ever_stored, wait_for_persistence-IsPersisted,
}
use network_actions_aggregat.LoadTest.Phases.{all_stored_lem, run-IsFresh}
use network_actions_aggregat.LoadTest.Sending.{Senders, send_result}
use network_actions_aggregat.LoadTest.Sending.Outcome.{Sent, stops, concat, run-IsSent}

-- `if err := …; err != nil { return fmt.Errorf("…: %w", err) }`, and the phases that follow otherwise; a
-- phase that has not returned keeps `run` waiting.
abbrev pub then_phase : String → Waiting → Waiting → Waiting
then_phase text waiting rest = waiting
then_phase text (returned (some e)) rest = returned (some (errorf text e))
then_phase text (returned none) rest = rest

-- The result of `generateAndSendDuplicates` over the events of the first phase.
abbrev pub duplicates_result : List Event → Senders Metrics → Option Error
duplicates_result [] s = some (message "no original events to duplicate")
duplicates_result (e ∷ es) s = send_result s

module _ {Db AggDb : Type 0} (repo : EventRepository Db)
    (aggregations : AggregationRepository AggDb) (config : Config) where
  -- Phases 4 and 5 after the wait.
  unfoldable pub last_phases : List Event → Context → AggDb → Waiting × Verifier × Metrics → Waiting
  last_phases events ctx agg_db (w, v, m) = then_phase "failed to verify persistence" w (
      then_phase "failed to verify duplicates rejection"
        (returned (verify_duplicates_rejected v m config.total_events).1)
        (then_phase "failed to verify aggregations"
          (returned (verify_aggregations ctx aggregations events agg_db)) (returned none)))

  -- `run` from its first phase, with the final states of the two groups of senders, of which the second
  -- goes on with the metrics of the first, what the wait meets, and the aggregates when it is over.
  unfoldable pub run_phases :
      Senders (Metrics × Verifier) → Senders Metrics → List (Wait Db) → Context → AggDb → Waiting
  run_phases unique duplicates xs ctx agg_db =
      then_phase "failed to generate and send unique events" (returned (send_result unique)) (
        then_phase "failed to generate and send duplicates"
          (returned (duplicates_result unique.all_events duplicates))
          (last_phases unique.all_events ctx agg_db
            (wait_for_persistence repo config xs unique.shared.1 duplicates.shared)))

  then_phase-nil :
      (text : String) (w rest : Waiting)
      → then_phase text w rest ≡ returned none
      → (w ≡ returned none) × (rest ≡ returned none)
  then_phase-nil text waiting rest h = (h, absurd (waits h))
    where
      waits : waiting ≡ returned none → ⊥
      waits e = cc
  then_phase-nil text (returned (some e)) rest h = absurd (fails h)
    where
      fails : returned (some (errorf text e)) ≡ returned none → ⊥
      fails k = cc
  then_phase-nil text (returned none) rest h = (refl, h)

  nil_of : (o : Option Error) → returned o ≡ returned none → o ≡ none
  nil_of o h = cc

  accepted_count :
      (v : Verifier) (m : Metrics) (n : ℕ)
      → (verify_duplicates_rejected v m n).1 ≡ none
      → length v.verified_events ≡ n
  unfolding verify_duplicates_rejected stats
  accepted_count v m n h = ground (arith, h)

  module _ (stored : Db → Uuid → Bool) (finds : FindsIds repo stored) (workers : ℕ)
      (batches : List (List Event)) (m0 : Metrics) where
    -- What a load test that passes has shown of the events that it generated.
    pub record IsPassed (tracked : ℕ) (xs : List (Wait Db)) (agg_db : AggDb) : Type 0 where
      pub all_stored :
          (id : Uuid) → has_id (concat batches) id ≡ true → ever_stored stored id xs ≡ true
      pub as_configured : tracked ≡ config.total_events
      pub days : List PeriodAggregation
      pub months : List PeriodAggregation
      pub lo : Time
      pub hi : Time
      pub days_read : aggregations.get_day_aggregations none lo hi agg_db ≡ ok days
      pub months_read : aggregations.get_month_aggregations none lo hi agg_db ≡ ok months
      pub confirmed : Confirms (concat batches) days months

    -- If the phases of the load test return nil, then every event that it generated was found in the
    -- database at one of the checks; as many different ids were sent as the configuration asks for events;
    -- and the aggregates that were read hold every day and month and type of the events with their
    -- sums. There is a worker at least, the context stays open, the repository finds events by their ids, and
    -- each `range` is in some order.
    pub run_phases-IsPassed :
        (unique : Senders (Metrics × Verifier)) (r : Sent workers batches m0 new_verifier unique)
        (duplicates : Senders Metrics) (xs : List (Wait Db)) (agg_db : AggDb)
        → 0 < workers
        → stops workers batches m0 new_verifier r ≡ 0
        → unique.exited ≡ workers
        → Permutes stored xs
        → run_phases unique duplicates xs none agg_db ≡ returned none
        → IsPassed (length unique.shared.1.sent_events) xs agg_db
    unfolding run_phases last_phases
    run_phases-IsPassed unique r duplicates xs agg_db w n h p passed =
        let v = unique.shared.1 in
        let m = duplicates.shared in
        let end = wait_for_persistence repo config xs v m in
        let phase1 =
          then_phase-nil "failed to generate and send unique events" (returned (send_result unique))
            _ passed in
        let phase2 =
          then_phase-nil "failed to generate and send duplicates"
            (returned (duplicates_result unique.all_events duplicates)) _ phase1.1 in
        let phase3 = then_phase-nil "failed to verify persistence" end.0 _ phase2.1 in
        let phase4 =
          then_phase-nil "failed to verify duplicates rejection"
            (returned (verify_duplicates_rejected end.1 end.2 config.total_events).1) _ phase3.1 in
        let phase5 =
          then_phase-nil "failed to verify aggregations"
            (returned (verify_aggregations none aggregations unique.all_events agg_db))
            (returned none) phase4.1 in
        let sent = run-IsSent workers batches m0 new_verifier unique r w n h in
        let kept =
          wait_for_persistence-IsPersisted repo stored finds config xs v m
            (run-IsFresh workers batches m0 unique r).tracked p phase3.0 in
        let (lo, hi, days, months, days_read, months_read, confirmed) =
          verify_aggregations-none none aggregations unique.all_events agg_db (nil_of _ phase5.0) in
        record {
          all_stored =
              all_stored_lem workers batches m0 repo stored finds config unique r xs m w n h
                (nil_of _ phase1.0) p phase3.0;
          as_configured =
              sym kept.all_verified
              ∙ accepted_count end.1 end.2 config.total_events (nil_of _ phase4.0);
          days = days;
          months = months;
          lo = lo;
          hi = hi;
          days_read = days_read;
          months_read = months_read;
          confirmed = subst (λ es. Confirms es days months) sent.returned_all confirmed;
        }
