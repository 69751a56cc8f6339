-- ===== src/Ingestor/Kept.antt =====
-- The program of cmd/ingestor/main.go keeps what was committed in the channel or with the workers, and
-- its workers run as those of `ProcessEvents` do.
use network_actions_aggregat.Prelude.{
  ◌≤◌, ◌≡◌, refl, sym, ap, ◌∙◌, Option, none, some, List, [], ◌∷◌, ◌++◌, arith, length,
}
use mathlib.Core.List.{append_assoc, append-nil}
use network_actions_aggregat.Entity.{Event, validate}
use network_actions_aggregat.Entity.Errors.{Error}
use network_actions_aggregat.Package.{UuidPackage, TimePackage, JsonPackage}
use network_actions_aggregat.Message.{KafkaEventMessage}
use network_actions_aggregat.Repository.{EventRepository}
use network_actions_aggregat.Kafka.Feed.Fed.{
  IsFed, new-IsFed, receive-IsFed, cancel-IsFed, after_send-IsFed, Feeding-IsFed, Feeding-Sends,
}
use network_actions_aggregat.Ingest.{Config, Signal, received}
use network_actions_aggregat.Ingest.Delivery.{keep_valid}
use network_actions_aggregat.Ingest.Pool.{new_pool, taken_in, take_round, Run}
use network_actions_aggregat.Pipeline.{valid}
use network_actions_aggregat.Ingestor.{
  Ingestor, new_ingestor, capacity, Offers, offers_done, offers_closed, offers_event, offers_tick,
  Act, consume, hand_directly, work, stop_printing, signalled, Advance, act, end_run, time_out,
  here, next, Reached,
}

keep_valid-append :
    (e : Event) (o : Option Error) (es fs : List Event)
    → keep_valid e o (es ++ fs) ≡ keep_valid e o es ++ fs
keep_valid-append e none es fs = refl
keep_valid-append e (some x) es fs = refl

valid-append : (es fs : List Event) → valid (es ++ fs) ≡ valid es ++ valid fs
valid-append [] fs = refl
valid-append (e ∷ es) fs =
    ap (keep_valid e (validate e)) (valid-append es fs)
    ∙ keep_valid-append e (validate e) (valid es) (valid fs)

valid-cons :
    (e : Event) (es : List Event) → keep_valid e (validate e) [] ++ valid es ≡ valid (e ∷ es)
valid-cons e es = sym (valid-append (e ∷ []) es)

valid-more :
    (sent taken queue new : List Event)
    → valid sent ≡ taken ++ valid queue
    → valid (sent ++ new) ≡ taken ++ valid (queue ++ new)
valid-more sent taken queue new h =
    valid-append sent new
    ∙ (ap (λ es. es ++ valid new) h
        ∙ (append_assoc taken (valid queue) (valid new)
            ∙ ap (λ es. taken ++ es) (sym (valid-append queue new))))

module _ (uuid : UuidPackage) (times : TimePackage) (json : JsonPackage KafkaEventMessage)
    {Db : Type 0} (repo : EventRepository Db) (config : Config) (db0 : Db) where
  -- The consumer is as `IsFed` says; the valid events that were sent are those that the workers received,
  -- in order, and those in the channel; and the workers have run as those of `ProcessEvents` do.
  pub record IsKept (p : Ingestor Db) : Type 0 where
    pub fed : IsFed uuid times json (capacity config) p.feed
    pub handed : valid p.feed.consumer.sent ≡ p.pool.taken ++ valid p.feed.queue
    pub runs : Run repo config db0 p.pool

  Offers-handed :
      {p : Ingestor Db} {x : Signal} {queue : List Event}
      → Offers p x queue
      → (taken_in x ++ valid queue ≡ valid p.feed.queue) × (length queue ≤ length p.feed.queue)
  Offers-handed (offers_done c d i) = (refl, omega arith)
  Offers-handed (offers_closed c d q i) = (ap valid (sym q), omega arith)
  Offers-handed (offers_event c e rest q i) =
      (valid-cons e rest ∙ ap valid (sym q), omega (arith, ap length q))
  Offers-handed (offers_tick c i) = (refl, omega arith)

  Act-IsKept : {p p' : Ingestor Db} → Act uuid times json repo config p p' → IsKept p → IsKept p'
  Act-IsKept {p} (consume f step) v =
      let (new, (sent, (queued, same))) = Feeding-Sends uuid times json (capacity config) step in
      record {
        fed = Feeding-IsFed uuid times json (capacity config) step v.fed;
        handed =
            ap valid sent
            ∙ (valid-more p.feed.consumer.sent p.pool.taken p.feed.queue new v.handed
                ∙ ap (λ es. p.pool.taken ++ valid es) (sym queued));
        runs = v.runs;
      }
  Act-IsKept {p} (hand_directly m e c before batch after w db r q i hw hr) v = record {
    fed = after_send-IsFed uuid times json (capacity config) m e r v.fed;
    handed =
        let taken = p.pool.taken ++ keep_valid e (validate e) [] in
        valid-more p.feed.consumer.sent p.pool.taken p.feed.queue (e ∷ []) v.handed
        ∙ (ap (λ es. p.pool.taken ++ valid (es ++ e ∷ [])) q
            ∙ (sym (append-nil taken) ∙ ap (λ es. taken ++ valid es) (sym q)));
    runs = Run.next v.runs (take_round before batch after (received e c) w db hw hr);
  }
  Act-IsKept {p} (work before batch after x queue w db hw offered hr) v =
      let (same, shorter) = Offers-handed offered in
      record {
        fed = receive-IsFed uuid times json (capacity config) queue v.fed shorter;
        handed =
            v.handed
            ∙ (ap (λ es. p.pool.taken ++ es) (sym same)
                ∙ sym (append_assoc p.pool.taken (taken_in x) (valid queue)));
        runs = Run.next v.runs (take_round before batch after x w db hw hr);
      }
  Act-IsKept (stop_printing d) v = record { fed = v.fed; handed = v.handed; runs = v.runs }
  Act-IsKept (signalled d) v = record {
    fed = cancel-IsFed uuid times json (capacity config) v.fed;
    handed = v.handed;
    runs = v.runs;
  }

  Advance-IsKept :
      {p p' : Ingestor Db} → Advance uuid times json repo config p p' → IsKept p → IsKept p'
  Advance-IsKept (act o a) v = Act-IsKept a v
  Advance-IsKept (end_run o d r) v = record { fed = v.fed; handed = v.handed; runs = v.runs }
  Advance-IsKept (time_out o d) v = record { fed = v.fed; handed = v.handed; runs = v.runs }

  -- In every state of the program, however its goroutines interleave: each committed message holds no
  -- event or its event was sent to the channel before; the channel is closed exactly when the consumer
  -- has returned, which it does only after the signal, and holds at most `BatchSize*2` events; the valid events that were sent are those that
  -- the workers received followed by those in the channel, none twice or left out; and the workers with the
  -- storage have run as `ProcessEvents` does.
  pub run-IsKept : (p : Ingestor Db) → Reached uuid times json repo config db0 p → IsKept p
  unfolding new_ingestor new_pool
  run-IsKept p here = record {
    fed = new-IsFed uuid times json (capacity config);
    handed = refl;
    runs = Run.here;
  }
  run-IsKept p (next r a) = Advance-IsKept a (run-IsKept _ r)
