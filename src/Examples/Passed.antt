-- ===== src/Examples/Passed.antt =====
-- A load test of one call that passes.
use network_actions_aggregat.Prelude.{◌≡◌, refl, true, none, List, [], ◌∷◌, length, arith}
use network_actions_aggregat.Dict.{lookup, insert, delete}
use network_actions_aggregat.Entity.{Event}
use network_actions_aggregat.Verifier.Tracking.{
  Verifier, new_verifier, has_id, track_sent, track_sent_batch, event_ids_to_check, verify_all,
  verify_from, mark_found, mark_missing, stats,
}
use network_actions_aggregat.LoadTest.{
  Config, Metrics, Wait, tick, returned, wait_from, wait_for_persistence,
  verify_duplicates_rejected,
}
use network_actions_aggregat.LoadTest.Sending.{
  Senders, start, put, close, receive, succeed, exit, here, next, send_result,
}
use network_actions_aggregat.LoadTest.Sending.Outcome.{Sent}
use network_actions_aggregat.LoadTest.Verdict.{
  run_phases, last_phases, IsPassed, run_phases-IsPassed,
}
use network_actions_aggregat.Examples.Ledger.{empty}
use network_actions_aggregat.Examples.Values.{call, noon}
use network_actions_aggregat.Examples.Verification.{rows_repository, one_call_verified}
use network_actions_aggregat.Examples.Loads.{
  memory, memory-FindsIds, same_order, same_order-Perm, load_config, no_metrics, one_batch,
}

abbrev small_config : Config
small_config = record load_config { total_events = 1 }

abbrev call_sent : Senders (Metrics × Verifier)
call_sent = record {
  coming = [];
  all_events = call 1 7 60 ∷ [];
  events_chan = [];
  closed = true;
  idle = 0;
  sending = [];
  reporting = 0;
  exited = 1;
  errors = 0;
  shared = (record no_metrics { events_sent = 1 }, track_sent_batch (noon 7) (1 ∷ []) new_verifier);
}

call_run : Sent 1 one_batch no_metrics new_verifier call_sent
unfolding start
call_run =
    next
      (next
        (next
          (next (next here (put (call 1 7 60 ∷ []) [] refl refl (omega arith))) (close refl refl))
          (receive (call 1 7 60 ∷ []) [] 0 refl refl))
        (succeed (noon 7) [] (call 1 7 60 ∷ []) [] refl))
      (exit 0 refl refl refl)

-- The call is sent once more as a duplicate.
abbrev again_sent : Senders Metrics
again_sent = record {
  coming = [];
  all_events = call 1 7 60 ∷ [];
  events_chan = [];
  closed = true;
  idle = 0;
  sending = [];
  reporting = 0;
  exited = 1;
  errors = 0;
  shared = record no_metrics { events_sent = 1; duplicates_sent = 1 };
}

abbrev one_check : List (Wait (List Event))
one_check = tick none (noon 9) (call 1 7 60 ∷ []) same_order ∷ []

passes :
    run_phases memory rows_repository small_config call_sent again_sent one_check none empty
    ≡ returned none
unfolding run_phases last_phases send_result verify_duplicates_rejected wait_for_persistence
    wait_from verify_all verify_from event_ids_to_check track_sent_batch track_sent insert lookup
    delete mark_found mark_missing stats
passes = rw one_call_verified refl

run_phases-IsPassed_example :
    IsPassed memory rows_repository small_config has_id memory-FindsIds 1 one_batch no_metrics
      (length call_sent.shared.1.sent_events)
      one_check
      empty
unfolding call_run
run_phases-IsPassed_example =
    run_phases-IsPassed memory rows_repository small_config has_id memory-FindsIds 1 one_batch
      no_metrics call_sent call_run again_sent one_check empty (omega arith) refl refl
      (same_order-Perm, tt) passes
