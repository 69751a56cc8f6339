-- ===== src/Examples/Loads.antt =====
-- The theorems on the load test, at two calls and a database in memory.
use mathlib.Core.List.{Perm}
use mathlib.Core.List.Perm.{refl as perm_refl}
use network_actions_aggregat.Prelude.{
  ℕ, ◌≡◌, ◌≤◌, ◌+◌, ◌∙◌, ◌*◌, refl, sym, ap, true, false, ◌&&◌, not, Bool-cases, inl, inr, String,
  none, some, List, [], ◌∷◌, ◌++◌, arith, contains, select, nat_beq, nat_beq_iff, length,
}
use network_actions_aggregat.Dict.{lookup, insert, delete}
use network_actions_aggregat.Entity.{Event, Uuid}
use network_actions_aggregat.Entity.Errors.{Result, ok, err, message}
use network_actions_aggregat.Repository.{Context, EventRepository}
use network_actions_aggregat.Verifier.Tracking.{
  Verifier, new_verifier, has, has_id, track_sent, track_sent_batch, event_ids_to_check, verify_all,
  verify_from, mark_found, mark_missing, stats,
}
use network_actions_aggregat.Verifier.Tracking.Checked.{FindsIds, IsChecked, verify_all-IsChecked}
use network_actions_aggregat.Generator.{Random, IsRandom, EventGenerator, generate_event}
use network_actions_aggregat.Generator.Drawn.{Gives}
use network_actions_aggregat.Generator.Finished.{IsFinished}
use network_actions_aggregat.Generator.Laws.{IsGenerator, generate_event-Gives}
use network_actions_aggregat.LoadTest.{
  Config, Metrics, Wait, timeout, tick, returned, wait_from, wait_for_persistence, batch_sizes,
}
use network_actions_aggregat.LoadTest.Sending.{
  Senders, start, put, close, receive, succeed, fail, report, exit, Run, here, next,
  sent_duplicates, failed_duplicates,
}
use network_actions_aggregat.LoadTest.Sending.Progress.{
  failures, steps, work, Moves, exited-failures, run-Moves, run_steps,
}
use network_actions_aggregat.LoadTest.Sending.Outcome.{Sent, IsSent, run-IsSent}
use network_actions_aggregat.Verifier.Tracking.Persisted.{
  IsTracked, new_verifier-IsTracked, track_sent_batch-IsTracked,
}
use network_actions_aggregat.LoadTest.Batches.{AreBatches, batch_sizes-AreBatches}
use network_actions_aggregat.Examples.Values.{call, noon}

-- The database is the list of its events; a context that is done makes a read fail.
abbrev found : Context → List Uuid → List Event → Result (List Event)
found none ids db = ok (select (λ e. contains ids e.event_id) db)
found (some e) ids db = err e

abbrev pub memory : EventRepository (List Event)
memory = record {
  batch_insert = λ ctx es db. (db ++ es, none);
  get_user_events = λ ctx user from to limit cursor db. err (message "not implemented yet");
  get_events_by_type = λ ctx ty from to limit db. ok [];
  get_event_by_id = λ ctx id t db. err (message "not found");
  count_user_events = λ ctx user from to db. ok 0;
  get_by_event_ids = found;
  get_by_time_range = λ ctx from to db. ok db;
}

has_id-select :
    (ids : List Uuid) (db : List Event) (id : Uuid)
    → has_id (select (λ e. contains ids e.event_id) db) id ≡ contains ids id && has_id db id
has_id-select ids [] id = ground arith
has_id-select ids (e ∷ db) id = elim (Bool-cases (nat_beq e.event_id id)) [
  | inl same ↦
      ground (
        arith,
        has_id-select ids db id,
        same,
        ap (contains ids) ((nat_beq_iff e.event_id id).0 same),
      )
  | inr other ↦ ground (arith, has_id-select ids db id, other)
]

ok_value : {a b : List Event} → ok a ≡ ok b → a ≡ b
ok_value h = cc

pub memory-FindsIds : FindsIds memory has_id
memory-FindsIds none ids db es h id =
    ap (λ l. has_id l id) (sym (ok_value h)) ∙ has_id-select ids db id
memory-FindsIds (some e) ids db es h id = absurd (cc)

abbrev pub same_order : List Uuid → List Uuid
same_order l = l

pub same_order-Perm : (l : List Uuid) → Perm (same_order l) l
same_order-Perm l = perm_refl l

-- Two calls were sent, and one is stored.
abbrev sent : Verifier
sent = track_sent_batch (noon 8) (1 ∷ 2 ∷ []) new_verifier

verify_all-IsChecked_example :
    IsChecked
      (has_id (call 1 7 60 ∷ []) 2)
      (has 2 sent.sent_events && not (has 2 sent.verified_events))
      2
      sent
      (verify_all memory none (noon 9) (call 1 7 60 ∷ []) same_order sent).0
unfolding verify_all verify_from event_ids_to_check track_sent_batch track_sent insert lookup
verify_all-IsChecked_example =
    verify_all-IsChecked memory has_id memory-FindsIds none (noon 9) (call 1 7 60 ∷ []) 2 same_order
      sent same_order-Perm refl

-- A source that always draws 0, and the id 1.
abbrev zeros : Random Unit
zeros = record { below = λ n s. (0, s); new_uuid = λ s. (1, s) }

zeros-IsRandom : IsRandom zeros
zeros-IsRandom = record { below-lt = λ n s h. h; new_uuid-ne = λ s h. absurd (omega (arith, h)) }

abbrev one_user : EventGenerator
one_user = record { source_id = 5; user_ids = 6 ∷ []; phone_numbers = "+70000000000" ∷ [] }

one_user-IsGenerator : IsGenerator one_user
one_user-IsGenerator = record {
  source = λ h. absurd (omega (arith, h));
  users = ((λ h. absurd (omega (arith, h))), tt);
  phones = ((λ h. cc), tt);
  paired = refl;
}

abbrev same_text : ℕ → String
same_text n = "-70"

generate_event-Gives_example :
    Gives IsFinished (generate_event zeros same_text (noon 7) (noon 8) one_user tt)
generate_event-Gives_example =
    generate_event-Gives zeros zeros-IsRandom same_text (noon 7) (noon 8) one_user tt
      one_user-IsGenerator (omega arith) (omega arith)

batch_sizes-AreBatches_example : AreBatches 4 10 (batch_sizes 10 10 4 0)
batch_sizes-AreBatches_example = batch_sizes-AreBatches 10 10 4 (omega arith) (omega arith)

abbrev pub load_config : Config
load_config = record {
  total_events = 2;
  duplicate_events = 1;
  user_count = 1;
  batch_size = 1;
  workers_count = 1;
  max_verify_iterations = 5;
}

abbrev pub no_metrics : Metrics
no_metrics = record {
  events_sent = 0;
  events_verified = 0;
  events_failed = 0;
  duplicates_sent = 0;
  duplicates_rejected = 0;
}

-- A check that fails, one that finds a call, and one that finds both.
abbrev checks : List (Wait (List Event))
checks =
    tick (some (message "context canceled")) (noon 8) [] same_order
    ∷ tick none (noon 8) (call 2 7 30 ∷ []) same_order
    ∷ tick none (noon 9) (call 1 7 60 ∷ call 2 7 30 ∷ []) same_order
    ∷ timeout
    ∷ []

sent-IsTracked : IsTracked sent
sent-IsTracked =
    track_sent_batch-IsTracked (noon 8) (1 ∷ 2 ∷ []) new_verifier new_verifier-IsTracked

checks_pass : (wait_for_persistence memory load_config checks sent no_metrics).0 ≡ returned none
unfolding wait_for_persistence wait_from verify_all verify_from event_ids_to_check track_sent_batch
    track_sent insert lookup delete mark_found mark_missing stats
checks_pass = refl

-- A run with one worker and two batches, both sent.
abbrev batches : List (List Event)
batches = (call 1 7 60 ∷ []) ∷ (call 2 7 30 ∷ []) ∷ []

abbrev both : List Event
both = call 1 7 60 ∷ call 2 7 30 ∷ []

abbrev all_sent : Senders (Metrics × Verifier)
all_sent = record {
  coming = [];
  all_events = both;
  events_chan = [];
  closed = true;
  idle = 0;
  sending = [];
  reporting = 0;
  exited = 1;
  errors = 0;
  shared = (
    record no_metrics { events_sent = 2 },
    track_sent_batch (noon 8) (2 ∷ []) (track_sent_batch (noon 7) (1 ∷ []) new_verifier),
  );
}

sent_run : Sent 1 batches no_metrics new_verifier all_sent
unfolding start
sent_run =
    next
      (next
        (next
          (next
            (next
              (next
                (next
                  (next here
                    (put (call 1 7 60 ∷ []) ((call 2 7 30 ∷ []) ∷ []) refl refl (omega arith)))
                  (receive (call 1 7 60 ∷ []) [] 0 refl refl))
                (put (call 2 7 30 ∷ []) [] refl refl (omega arith)))
              (close refl refl))
            (succeed (noon 7) [] (call 1 7 60 ∷ []) [] refl))
          (receive (call 2 7 30 ∷ []) [] 0 refl refl))
        (succeed (noon 8) [] (call 2 7 30 ∷ []) [] refl))
      (exit 0 refl refl refl)

run-IsSent_example : IsSent 1 batches no_metrics new_verifier all_sent
unfolding sent_run
run-IsSent_example =
    run-IsSent 1 batches no_metrics new_verifier all_sent sent_run (omega arith) refl refl

-- A run with one worker that fails to send its batch of duplicates: it waits to report the error, and
-- returns.
abbrev reporting_one : Senders Metrics
reporting_one = record {
  coming = [];
  all_events = call 1 7 60 ∷ [];
  events_chan = [];
  closed = false;
  idle = 0;
  sending = [];
  reporting = 1;
  exited = 0;
  errors = 0;
  shared = no_metrics;
}

abbrev failed_one : Senders Metrics
failed_one = record reporting_one { closed = true; reporting = 0; exited = 1; errors = 1 }

abbrev pub one_batch : List (List Event)
one_batch = (call 1 7 60 ∷ []) ∷ []

reporting_run : Run 1 sent_duplicates failed_duplicates one_batch no_metrics reporting_one
unfolding start
reporting_run =
    next
      (next (next here (put (call 1 7 60 ∷ []) [] refl refl (omega arith)))
        (receive (call 1 7 60 ∷ []) [] 0 refl refl))
      (fail [] (call 1 7 60 ∷ []) [] refl)

failed_run : Run 1 sent_duplicates failed_duplicates one_batch no_metrics failed_one
unfolding reporting_run
failed_run =
    next (next (next reporting_run (report 0 refl (omega arith))) (close refl refl))
      (exit 0 refl refl refl)

exited-failures_example : failures 1 sent_duplicates failed_duplicates failed_run ≤ 1
exited-failures_example =
    exited-failures 1 sent_duplicates failed_duplicates one_batch no_metrics failed_one failed_run
      refl

run-Moves_example : Moves 1 sent_duplicates failed_duplicates reporting_one
unfolding reporting_run
run-Moves_example =
    run-Moves 1 sent_duplicates failed_duplicates one_batch no_metrics (noon 8) reporting_one
      reporting_run (omega arith) (omega arith) (omega arith)

run_steps_example :
    steps 1 sent_duplicates failed_duplicates reporting_run
      + work 1 sent_duplicates failed_duplicates reporting_one
    ≤ length one_batch * 5 + 1 + 1
run_steps_example =
    run_steps 1 sent_duplicates failed_duplicates one_batch no_metrics reporting_one reporting_run
