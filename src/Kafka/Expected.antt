-- ===== src/Kafka/Expected.antt =====
-- What the verifier expects of a batch before and after its way through the topic.
use network_actions_aggregat.Prelude.{◌≡◌, refl, sym, ap, ◌∙◌, Option, List, [], ◌∷◌, ◌++◌}
use network_actions_aggregat.Clock.{Time}
use network_actions_aggregat.Entity.{Event}
use network_actions_aggregat.Entity.Errors.{Error, ok}
use network_actions_aggregat.Package.{
  UuidPackage, ReadsBack, TimePackage, ReadsSeconds, JsonPackage, ReadsOmitted,
}
use network_actions_aggregat.Message.{KafkaEventMessage, omitted}
use network_actions_aggregat.Message.Roundtrip.{
  received, received_events, sent_events, calculate_expected_aggregations-received,
}
use network_actions_aggregat.Verifier.{calculate_expected_aggregations}
use network_actions_aggregat.Kafka.{Written, Round, done, consume_events, write_batch}
use network_actions_aggregat.Kafka.Delivery.{
  Polled, drained, failing, polled, arrivals, AllWritable, write_batch-cons,
  consume_events-write_batch,
}

module _ (uuid : UuidPackage) (times : TimePackage) (json : JsonPackage KafkaEventMessage)
    (ids : ReadsBack uuid) (reads : ReadsSeconds times) (bodies : ReadsOmitted omitted json) where
  -- Each event of a batch that is written is fetched at its time.
  fetch_times :
      (evs : List (Time × Event)) {ms : List Written} {nows : List Time} {xs : List Round}
      → Polled ms nows xs
      → write_batch uuid times json evs ≡ ok ms
      → (ys : List (Time × Event)) × (received_events ys ≡ arrivals nows evs)
        × (sent_events ys ≡ sent_events evs)
  unfolding write_batch
  fetch_times [] drained h = ([], refl, refl)
  fetch_times ((t, e) ∷ evs) drained h =
      let (n, rest, (hm, (hr, same))) =
        write_batch-cons uuid times json ids reads bodies t e evs [] h in
      absurd (cc (same))
  fetch_times evs (failing e p) h = fetch_times evs p h
  fetch_times [] (polled m offset now o p) h = absurd (cc)
  fetch_times ((t, e) ∷ evs) (polled {ms} {nows} {xs} m offset now o p) h =
      let (n, rest, (hm, (hr, same))) =
        write_batch-cons uuid times json ids reads bodies t e evs (m ∷ ms) h in
      let (ys, a, b) = fetch_times evs p (hr ∙ ap ok (cc)) in
      ((now, e) ∷ ys, ap (◌∷◌ (received now e)) a, ap (◌∷◌ e) b)

  -- The way through Kafka changes no aggregate: what the verifier expects of the events that a consumer
  -- hands over, after a batch was written and its messages were fetched in order, each sent before the
  -- context is done, is what it expects of the events of the batch. The times of the batch can be written,
  -- and failed fetches and failed commits may come between.
  pub calculate_expected_aggregations-consume_events :
      (closing : Option Error) (evs : List (Time × Event)) {ms : List Written} {nows : List Time}
      {xs : List Round}
      → Polled ms nows xs
      → write_batch uuid times json evs ≡ ok ms
      → AllWritable evs
      → calculate_expected_aggregations
          (consume_events uuid times json closing (xs ++ done ∷ [])).0.sent
        ≡ calculate_expected_aggregations (sent_events evs)
  calculate_expected_aggregations-consume_events closing evs p h w =
      let (ys, a, b) = fetch_times evs p h in
      let sent = consume_events-write_batch uuid times json ids reads bodies closing evs p h w in
      ap calculate_expected_aggregations (sent.0 ∙ sym a)
      ∙ (calculate_expected_aggregations-received ys ∙ ap calculate_expected_aggregations b)
