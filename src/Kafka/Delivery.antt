-- ===== src/Kafka/Delivery.antt =====
-- A batch from `SendBatch` to the channel of `ConsumeEvents`.
use network_actions_aggregat.Prelude.{
  ◌≡◌, refl, sym, ap, subst, ◌∙◌, true, false, Option, none, some, List, [], ◌∷◌, ◌++◌, All, ℕ,
}
use mathlib.Core.List.{append_assoc, append-nil}
use network_actions_aggregat.Clock.{Time}
use network_actions_aggregat.Entity.{Event}
use network_actions_aggregat.Entity.Errors.{Error, Result, ok, err, wrap_error, ◌>>=◌}
use network_actions_aggregat.Package.{
  UuidPackage, ReadsBack, TimePackage, ReadsSeconds, JsonPackage, ReadsOmitted, Bytes,
}
use network_actions_aggregat.Message.{
  KafkaEventMessage, omitted, event_to_message, unmarshal_kafka_message,
}
use network_actions_aggregat.Message.Roundtrip.{
  received, HasWritableTimes, to_event-event_to_message,
}
use network_actions_aggregat.Kafka.{
  Fetched, Written, Round, done, failed, fetched, Consumer, new_run, Loop, consuming, returned,
  commit, hand_over, parse_event, handle, consume_round, consume_from, consume_events,
  write_message, write_batch,
}

-- The rounds in which written messages are fetched in order, with failures of `FetchMessage` between
-- them; each with an offset, the clock and the result of the commit.
pub data Polled : List Written → List Time → List Round → Type 0 where
  drained : Polled [] [] []
  failing :
      {ms : List Written} {nows : List Time} {xs : List Round} (e : Error)
      → Polled ms nows xs
      → Polled ms nows (failed e ∷ xs)
  polled :
      {ms : List Written} {nows : List Time} {xs : List Round} (m : Written) (offset : ℕ)
      (now : Time) (o : Option Error)
      → Polled ms nows xs
      → Polled
          (m ∷ ms)
          (now ∷ nows)
          (fetched (record { offset = offset; value = m.value }) now false o ∷ xs)

-- The events of a batch as they are received at given times.
abbrev pub arrivals : List Time → List (Time × Event) → List Event
arrivals [] xs = []
arrivals (now ∷ nows) [] = []
arrivals (now ∷ nows) ((t, e) ∷ xs) = received now e ∷ arrivals nows xs

abbrev pub AllWritable : List (Time × Event) → Type 0
AllWritable = All (λ (p : Time × Event). HasWritableTimes p.1)

ok_value : {A : Type 0} {a b : A} → ok a ≡ ok b → a ≡ b
ok_value e = cc

module _ (uuid : UuidPackage) (times : TimePackage) (json : JsonPackage KafkaEventMessage)
    (ids : ReadsBack uuid) (reads : ReadsSeconds times) (bodies : ReadsOmitted omitted json) where
  write_message-value :
      (now : Time) (e : Event) (m : Written)
      → write_message uuid times json now e ≡ ok m
      → json.marshal (event_to_message uuid times e) ≡ ok m.value
  unfolding write_message
  write_message-value now e m h = from_result (json.marshal (event_to_message uuid times e)) h
    where
      from_result :
          (r : Result Bytes)
          → (r >>= λ v. ok (record { key = uuid.string e.user_id; value = v; time = now })) ≡ ok m
          → r ≡ ok m.value
      from_result (ok v) k = ap (λ w. ok w.value) (ok_value {A = Written} k)
      from_result (err x) k = absurd (cc)

  -- What one side writes, the other reads.
  pub parse_event-write_message :
      (sent_at now : Time) (e : Event) (m : Written)
      → HasWritableTimes e
      → write_message uuid times json sent_at e ≡ ok m
      → parse_event uuid times json now m.value ≡ ok (received now e)
  unfolding parse_event unmarshal_kafka_message
  parse_event-write_message sent_at now e m w h =
      rw
        (
          bodies (event_to_message uuid times e) m.value (write_message-value sent_at e m h),
          to_event-event_to_message uuid times ids reads now e w,
        )
        refl

  pub write_batch-cons :
      (t : Time) (e : Event) (xs : List (Time × Event)) (ms : List Written)
      → write_batch uuid times json ((t, e) ∷ xs) ≡ ok ms
      → (m : Written) × (rest : List Written) × ((write_message uuid times json t e ≡ ok m)
          × ((write_batch uuid times json xs ≡ ok rest) × (m ∷ rest ≡ ms)))
  unfolding write_batch
  write_batch-cons t e xs ms h =
      from_results (write_message uuid times json t e) (write_batch uuid times json xs) h
    where
      from_results :
          (r : Result Written) (s : Result (List Written))
          → (wrap_error "failed to marshal event" r >>= λ m. (s >>= λ l. ok (m ∷ l))) ≡ ok ms
          → (m : Written) × (rest : List Written) × ((r ≡ ok m) × ((s ≡ ok rest) × (m ∷ rest ≡ ms)))
      from_results (ok m) (ok rest) k = (m, rest, (refl, (refl, ok_value k)))
      from_results (ok m) (err x) k = absurd (cc)
      from_results (err x) s k = absurd (cc)

  -- The end of a run that left its loop with `closing`, having handed over these events.
  abbrev Delivered : Option Error → List Event → Consumer × Loop → Type 0
  Delivered closing es s =
      (s.0.sent ≡ es) × ((s.1 ≡ returned closing) × (s.0.channel_closed ≡ true))

  commit-sent : (o : Option Error) (m : Fetched) (c : Consumer) → (commit o m c).sent ≡ c.sent
  commit-sent none m c = refl
  commit-sent (some e) m c = refl

  consume_from-delivers :
      (closing : Option Error) (evs : List (Time × Event)) {ms : List Written} {nows : List Time}
      {xs : List Round}
      → Polled ms nows xs
      → write_batch uuid times json evs ≡ ok ms
      → AllWritable evs
      → (c : Consumer)
      → Delivered closing
          (c.sent ++ arrivals nows evs)
          (consume_from uuid times json closing (xs ++ done ∷ []) (c, consuming))
  unfolding consume_from consume_round write_batch handle
  consume_from-delivers closing evs drained h w c = (sym (append-nil c.sent), (refl, refl))
  consume_from-delivers closing evs (failing e p) h w c = consume_from-delivers closing evs p h w c
  consume_from-delivers closing [] (polled m offset now o p) h w c = absurd (cc)
  consume_from-delivers closing ((t, e) ∷ evs) (polled {ms} {nows} {xs} m offset now o p) h w c =
      let (n, rest, (hm, (hr, same))) = write_batch-cons t e evs (m ∷ ms) h in
      let q : Fetched = record { offset = offset; value = m.value } in
      let sent_first : write_message uuid times json t e ≡ ok m = hm ∙ ap ok (cc) in
      let sent_rest : write_batch uuid times json evs ≡ ok ms = hr ∙ ap ok (cc) in
      let got = parse_event-write_message t now e m w.0 sent_first in
      let next = commit o q (hand_over (received now e) c) in
      let ih = consume_from-delivers closing evs p sent_rest w.1 next in
      let first = commit-sent o q (hand_over (received now e) c) in
      subst
        (λ s.
          Delivered closing (c.sent ++ (received now e ∷ arrivals nows evs))
            (consume_from uuid times json closing (xs ++ done ∷ []) s))
        (sym (ap (λ r. handle uuid times json q r false o c) got))
        (
          ih.0
              ∙ (ap (λ l. l ++ arrivals nows evs) first
                  ∙ append_assoc c.sent (received now e ∷ []) (arrivals nows evs)),
          ih.1,
        )

  -- A batch that `SendBatch` could write is what the channel of a consumer gets: if its messages are
  -- fetched in order, each send is chosen before the end of the context, and the context is done after
  -- the last, `ConsumeEvents` hands over exactly the events of the batch, in order, with their times in
  -- whole seconds; then it closes the channel and returns the result of closing the reader. Failed fetches
  -- and failed commits change nothing of this.
  pub consume_events-write_batch :
      (closing : Option Error) (evs : List (Time × Event)) {ms : List Written} {nows : List Time}
      {xs : List Round}
      → Polled ms nows xs
      → write_batch uuid times json evs ≡ ok ms
      → AllWritable evs
      → let s = consume_events uuid times json closing (xs ++ done ∷ []) in
        (s.0.sent ≡ arrivals nows evs) × ((s.1 ≡ returned closing) × (s.0.channel_closed ≡ true))
  unfolding consume_events
  consume_events-write_batch closing evs p h w = consume_from-delivers closing evs p h w new_run
