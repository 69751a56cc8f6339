-- ===== src/Examples/Services.antt =====
-- The theorems on the program of cmd/ingestor/main.go, at a call that a worker holds when the signal comes.
use network_actions_aggregat.Prelude.{
  ◌≡◌, beq_refl, refl, ap, Bool, true, false, ◌||◌, none, some, [], ◌∷◌, arith,
}
use network_actions_aggregat.Entity.{Event, validate, is_valid, has_duration, ends_early}
use network_actions_aggregat.Entity.Errors.{Error, ok, context_canceled}
use network_actions_aggregat.Message.{event_to_message}
use network_actions_aggregat.Message.Roundtrip.{received as as_received}
use network_actions_aggregat.Repository.{EventRepository}
use network_actions_aggregat.Kafka.{Fetched, write_message, parse_event, commit}
use network_actions_aggregat.Kafka.Delivery.{parse_event-write_message}
use network_actions_aggregat.Ingest.{
  Contexts, received, done, working, round, take_event, save_rest, save_batch_with_retry,
  retry_loop,
}
use network_actions_aggregat.Ingest.Pool.{new_pool, after_round}
use network_actions_aggregat.Pipeline.{valid}
use network_actions_aggregat.Postgres.{event_repository, batch_insert, first_invalid}
use network_actions_aggregat.Postgres.Events.{
  event_repository-IsAtomic, event_repository-RefusesDone,
}
use network_actions_aggregat.Kafka.Feed.{
  Feed, new_feed, fetching, after_parse, after_send, fetch, send, commit_message,
}
use network_actions_aggregat.Ingestor.{
  Ingestor, new_ingestor, group_done, consume, work, offers_event, offers_done, act, Leads, here,
  next, Reached,
}
use network_actions_aggregat.Ingestor.Kept.{IsKept, run-IsKept}
use network_actions_aggregat.Ingestor.Tables.{held_key, run-keys}
use network_actions_aggregat.Models.{from_domain}
use network_actions_aggregat.Postgres.Sql.{has_key}
use network_actions_aggregat.Postgres.KeyGrowth.{sends_key}
use network_actions_aggregat.Ingestor.Shutdown.{done-unchanged}
use network_actions_aggregat.Ingestor.Exit.{run-can_return}
use network_actions_aggregat.Examples.Values.{uuid, uuid-ReadsBack, noon}
use network_actions_aggregat.Examples.Messages.{
  times, times-ReadsSeconds, json, json-ReadsOmitted, first_call, wrote,
  first_call-HasWritableTimes,
}
use network_actions_aggregat.Examples.Loads.{memory}
use network_actions_aggregat.Examples.Storage.{Tables, sql, laws, no_tables}
use network_actions_aggregat.Examples.Pools.{pool_config, open_contexts}

abbrev pub its_record : Fetched
its_record = record { offset = 0; value = 1 ∷ [] }

abbrev pub its_event : Event
its_event = as_received (noon 9) first_call

its_event_written : write_message uuid times json (noon 7) first_call ≡ ok (wrote (noon 7))
unfolding write_message event_to_message
its_event_written = rw (beq_refl (event_to_message uuid times first_call).started_at) refl

pub its_event_parsed : parse_event uuid times json (noon 9) its_record.value ≡ ok its_event
its_event_parsed =
    parse_event-write_message uuid times json uuid-ReadsBack times-ReadsSeconds json-ReadsOmitted
      (noon 7) (noon 9) first_call (wrote (noon 7)) first_call-HasWritableTimes its_event_written

abbrev pub fetched : Feed
fetched = record new_feed {
  reader = after_parse its_record (parse_event uuid times json (noon 9) its_record.value);
}

abbrev pub sent : Feed
sent = record (after_send its_record its_event fetched) { queue = its_event ∷ [] }

abbrev committed : Feed
committed = record sent { reader = fetching; consumer = commit none its_record sent.consumer }

module _ {Db : Type 0} (repo : EventRepository Db) (db : Db) where
  abbrev with_feed : Feed → Ingestor Db
  with_feed f = record (new_ingestor pool_config db) { feed = f }

  -- A worker holds the call, and the message is committed.
  abbrev held : Ingestor Db
  held = record (with_feed committed) {
    feed = record committed { queue = [] };
    pool =
        after_round (with_feed committed).pool [] (working (its_event ∷ [])) (working [] ∷ [])
          (received its_event open_contexts) db;
  }

  abbrev LeadsTo : Ingestor Db → Ingestor Db → Type 0
  LeadsTo = Leads uuid times json repo pool_config

  committed_run : LeadsTo (new_ingestor pool_config db) (with_feed committed)
  unfolding new_ingestor
  committed_run =
      next {q = with_feed sent}
        (next {q = with_feed fetched}
          (next {q = new_ingestor pool_config db} here (
            act refl (
              consume {p = new_ingestor pool_config db} fetched
                (fetch {f = new_feed} its_record (noon 9) refl))))
          (act refl (
            consume {p = with_feed fetched} sent (
              send {f = fetched} its_record its_event (ap (after_parse its_record) its_event_parsed)
                (omega arith)))))
        (act refl
          (consume {p = with_feed sent} committed (commit_message {f = sent} its_record none refl)))

  held_run : Reached uuid times json repo pool_config db held
  unfolding new_ingestor new_pool round take_event validate is_valid has_duration ends_early
  held_run = next {q = with_feed committed} committed_run (
      act refl (
        work {p = with_feed committed} [] [] (working [] ∷ []) (received its_event open_contexts) []
          (working (its_event ∷ [])) db refl
          (offers_event open_contexts its_event [] refl (λ d n. absurd (cc))) refl))

run-IsKept_example : IsKept uuid times json memory pool_config [] (held memory [])
run-IsKept_example =
    run-IsKept uuid times json memory pool_config [] (held memory []) (held_run memory [])

abbrev never : Error → Bool
never e = false

abbrev postgres : EventRepository Tables
postgres = event_repository sql never

run-keys_example :
    let p = held postgres no_tables in
    ((has_key [] (from_domain its_event) || sends_key [] (from_domain its_event))
      || held_key p.pool.workers (from_domain its_event))
    ≡ (has_key [] (from_domain its_event)
        || sends_key (valid (its_event ∷ [])) (from_domain its_event))
unfolding new_ingestor new_pool laws
run-keys_example =
    run-keys uuid times json sql laws never pool_config (from_domain its_event) no_tables
      (held postgres no_tables) (held_run postgres no_tables) refl

-- The signal, before which the message was committed, and the end of the worker.
abbrev signaled : Ingestor Tables
signaled = record (held postgres no_tables) {
  feed = record (held postgres no_tables).feed { canceled = true };
}

abbrev done_contexts : Contexts
done_contexts = record { waits = λ n. none; calls = λ n. some context_canceled }

abbrev lost : Ingestor Tables
lost = record signaled {
  pool =
      after_round signaled.pool []
        (round postgres pool_config (its_event ∷ []) (done context_canceled done_contexts)
          no_tables).0
        (working [] ∷ []) (done context_canceled done_contexts) no_tables;
}

lost_run : LeadsTo postgres no_tables signaled lost
unfolding new_ingestor new_pool round save_rest save_batch_with_retry retry_loop batch_insert
    first_invalid validate is_valid has_duration ends_early
lost_run = next {q = signaled} here (
    act refl (
      work {p = signaled} [] (its_event ∷ []) (working [] ∷ [])
        (done context_canceled done_contexts) [] _ no_tables refl
        (offers_done done_contexts refl (λ d n. refl)) refl))

done-unchanged_example : (group_done lost ≡ true) × (lost.pool.db ≡ no_tables)
done-unchanged_example =
    done-unchanged uuid times json postgres pool_config (event_repository-IsAtomic sql laws never)
      (event_repository-RefusesDone sql laws never (λ x ms db h. absurd (cc (h)))) signaled lost
      lost_run refl

run-can_return_example :
    (q : Ingestor Tables) × (Leads uuid times json postgres pool_config (held postgres no_tables) q
      × (q.outcome ≡ some none))
unfolding new_ingestor
run-can_return_example =
    run-can_return uuid times json postgres pool_config (held postgres no_tables) refl
