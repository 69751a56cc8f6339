-- ===== src/Pipeline.antt =====
-- From the producer of cmd/generator/producer.go over the consumer of internal/infrastructure/kafka to an
-- ingest worker of internal/usecase/ingest_events.go and the table `events_raw`.
use network_actions_aggregat.Prelude.{◌≡◌, refl, ap, ◌∙◌, Bool, Option, none, List, [], ◌∷◌, ◌++◌}
use network_actions_aggregat.Clock.{Time}
use network_actions_aggregat.Entity.{Event, validate}
use network_actions_aggregat.Entity.Errors.{Error, ok}
use network_actions_aggregat.Package.{
  UuidPackage, ReadsBack, TimePackage, ReadsSeconds, JsonPackage, ReadsOmitted,
}
use network_actions_aggregat.Message.{KafkaEventMessage, omitted}
use network_actions_aggregat.Kafka.{Written, Round, done, consume_events, write_batch}
use network_actions_aggregat.Kafka.Delivery.{
  Polled, arrivals, AllWritable, consume_events-write_batch,
}
use network_actions_aggregat.Ingest.{Config, Contexts, Signal, closed, received, finished, worker}
use network_actions_aggregat.Ingest.Delivery.{keep_valid, taken}
use network_actions_aggregat.Postgres.Sql.{Gorm, SqlLaws}
use network_actions_aggregat.Postgres.{event_repository}
use network_actions_aggregat.Postgres.Keys.{with_batch}
use network_actions_aggregat.Postgres.Workers.{worker-stores}

-- What a worker that is alone on a channel sees of it: its events, each with the contexts of the save that
-- it may start, and its end.
abbrev pub channel : (Event → Contexts) → Contexts → List Event → List Signal
channel contexts last [] = closed last ∷ []
channel contexts last (e ∷ es) = received e (contexts e) ∷ channel contexts last es

abbrev pub valid : List Event → List Event
valid [] = []
valid (e ∷ es) = keep_valid e (validate e) (valid es)

taken-channel :
    (contexts : Event → Contexts) (last : Contexts) (es : List Event)
    → taken (channel contexts last es) ≡ valid es
unfolding taken
taken-channel contexts last [] = refl
taken-channel contexts last (e ∷ es) =
    ap (keep_valid e (validate e)) (taken-channel contexts last es)

module _ (uuid : UuidPackage) (times : TimePackage) (json : JsonPackage KafkaEventMessage)
    (ids : ReadsBack uuid) (reads : ReadsSeconds times) (bodies : ReadsOmitted omitted json)
    {Db : Type 0} (sql : Gorm Db) (laws : SqlLaws sql) (not_found : Error → Bool)
    (config : Config) where
  open laws use {event_rows}

  -- From `SendBatch` to `events_raw`: if the messages of a written batch are fetched in order until the
  -- context is done, and one worker receives what the consumer handed to the channel and returns nil when
  -- the channel is closed, the table is as if the valid ones among the events of the batch, with their
  -- times in whole seconds, were inserted once in their order, leaving out those whose key is there.
  -- Failed fetches, commits and attempts to save change nothing of this. The packages and the database
  -- keep their documented behaviour, and the times of the events fit RFC 3339.
  pub write_batch-stored :
      (closing : Option Error) (evs : List (Time × Event)) {ms : List Written} {nows : List Time}
      {xs : List Round}
      → Polled ms nows xs
      → write_batch uuid times json evs ≡ ok ms
      → AllWritable evs
      → (contexts : Event → Contexts) (last : Contexts) (db : Db)
      → let sent = (consume_events uuid times json closing (xs ++ done ∷ [])).0.sent in
        let r = worker (event_repository sql not_found) config (channel contexts last sent) db in
        r.0 ≡ finished none
        → event_rows r.1 ≡ with_batch (event_rows db) (valid (arrivals nows evs))
  write_batch-stored closing evs {ms} {nows} {xs} p h w contexts last db f =
      let sent = (consume_events uuid times json closing (xs ++ done ∷ [])).0.sent in
      let handed =
        (consume_events-write_batch uuid times json ids reads bodies closing evs p h w).0 in
      worker-stores sql laws not_found config (channel contexts last sent) db f
      ∙ ap (with_batch (event_rows db)) (taken-channel contexts last sent ∙ ap valid handed)
