-- ===== src/Examples/Pipelines.antt =====
-- The theorem on the way of a batch, at a call that is sent twice.
use network_actions_aggregat.Prelude.{◌≡◌, refl, sym, subst, Bool, false, none, List, [], ◌∷◌, ◌++◌}
use network_actions_aggregat.Clock.{Time}
use network_actions_aggregat.Entity.{Event, validate, is_valid, has_duration, ends_early}
use network_actions_aggregat.Entity.Errors.{Error}
use network_actions_aggregat.Ingest.{
  Config, Contexts, finished, worker, worker_from, round, take_event, save_rest, retry_loop,
  save_batch_with_retry,
}
use network_actions_aggregat.Kafka.{done, consume_events}
use network_actions_aggregat.Kafka.Delivery.{arrivals, consume_events-write_batch}
use network_actions_aggregat.Postgres.{event_repository, batch_insert, first_invalid}
use network_actions_aggregat.Postgres.Keys.{with_batch}
use network_actions_aggregat.Pipeline.{channel, valid, write_batch-stored}
use network_actions_aggregat.Examples.Values.{uuid, uuid-ReadsBack, noon}
use network_actions_aggregat.Examples.Storage.{sql, laws, no_tables}
use network_actions_aggregat.Examples.Messages.{
  times, times-ReadsSeconds, json, json-ReadsOmitted, batch, rounds, rounds-Polled, batch_written,
  first_call-HasWritableTimes,
}

abbrev never : Error → Bool
never e = false

abbrev one_attempt : Config
one_attempt = record {
  batch_size = 2;
  batch_timeout = 5_000_000_000;
  workers_count = 1;
  retry_attempts = 1;
  retry_delay = 0;
}

abbrev open_contexts : Contexts
open_contexts = record { waits = λ n. none; calls = λ n. none }

abbrev always_open : Event → Contexts
always_open e = open_contexts

abbrev times_read : List Time
times_read = noon 9 ∷ noon 10 ∷ []

abbrev sent_on : List Event
sent_on = (consume_events uuid times json none (rounds ++ done ∷ [])).0.sent

sent_on_lem : sent_on ≡ arrivals times_read batch
sent_on_lem =
    (consume_events-write_batch uuid times json uuid-ReadsBack times-ReadsSeconds json-ReadsOmitted
      none batch rounds-Polled batch_written
      (first_call-HasWritableTimes, (first_call-HasWritableTimes, tt))).0

arrivals_stored :
    (worker
      (event_repository sql never)
      one_attempt
      (channel always_open open_contexts (arrivals times_read batch))
      no_tables).0
    ≡ finished none
unfolding worker worker_from round take_event save_rest save_batch_with_retry retry_loop
    batch_insert first_invalid validate is_valid has_duration ends_early
arrivals_stored = refl

sent_stored :
    (worker
      (event_repository sql never)
      one_attempt
      (channel always_open open_contexts sent_on)
      no_tables).0
    ≡ finished none
sent_stored =
    subst
      (λ es.
        (worker (event_repository sql never) one_attempt (channel always_open open_contexts es)
          no_tables).0
        ≡ finished none)
      (sym sent_on_lem) arrivals_stored

write_batch-stored_example :
    (worker
      (event_repository sql never)
      one_attempt
      (channel always_open open_contexts sent_on)
      no_tables).1.events
    ≡ with_batch [] (valid (arrivals times_read batch))
unfolding laws
write_batch-stored_example =
    write_batch-stored uuid times json uuid-ReadsBack times-ReadsSeconds json-ReadsOmitted sql laws
      never one_attempt none batch rounds-Polled batch_written
      (first_call-HasWritableTimes, (first_call-HasWritableTimes, tt)) always_open open_contexts
      no_tables sent_stored
