-- ===== src/Service/Served.antt =====
-- The program of cmd/aggregator/main.go keeps what was committed with its goroutines or in the channel.
use network_actions_aggregat.Prelude.{
  ◌≡◌, refl, sym, ap, subst, ◌∙◌, Bool, true, false, some, List, [], ◌∷◌, ◌++◌, arith, length,
}
use mathlib.Core.List.{append_assoc}
use network_actions_aggregat.Entity.{Event}
use network_actions_aggregat.Entity.Errors.{Error}
use network_actions_aggregat.Package.{UuidPackage, TimePackage, JsonPackage}
use network_actions_aggregat.Message.{KafkaEventMessage}
use network_actions_aggregat.Buffer.{Aggregate}
use network_actions_aggregat.Repository.{EventRepository, AggregationRepository}
use network_actions_aggregat.Kafka.Feed.{stopped, HasStopped}
use network_actions_aggregat.Kafka.Feed.Fed.{
  IsFed, new-IsFed, receive-IsFed, cancel-IsFed, Feeding-IsFed, Feeding-Sends,
}
use network_actions_aggregat.Aggregator.{Config, is_duplicate}
use network_actions_aggregat.Aggregator.System.{System, initial, counted, Step, IsInternal, Run}
use network_actions_aggregat.Service.{
  Service, new_service, capacity, Act, consume, receive, exit, internal, Advance, act, signalled,
  sleep_over, consumer_failed, Reached, here, next,
}

-- Some of the events of a list, in their order.
pub data Picks : List Event → List Event → Type 0 where
  nothing : Picks [] []
  leaves : {xs ys : List Event} (e : Event) → Picks xs ys → Picks xs (ys ++ e ∷ [])
  takes : {xs ys : List Event} (e : Event) → Picks xs ys → Picks (xs ++ e ∷ []) (ys ++ e ∷ [])

Picks-counted :
    (duplicate : Bool) (e : Event) (xs ys : List Event)
    → Picks xs ys
    → Picks (counted duplicate e xs) (ys ++ e ∷ [])
Picks-counted true e xs ys h = leaves e h
Picks-counted false e xs ys h = takes e h

module _ (uuid : UuidPackage) (times : TimePackage) (json : JsonPackage KafkaEventMessage)
    {Db : Type 0} (order : List Aggregate → List Aggregate) (events : EventRepository Db)
    (repo : AggregationRepository Db) (config : Config) (db0 : Db) where
  -- The consumer is as `IsFed` says; the events that were sent are those that were received, in order,
  -- and those in the channel; those that were counted are some of the received; the goroutines have run
  -- as those of `Run` do; and `run` has not failed.
  pub record IsServed (p : Service Db) : Type 0 where
    pub fed : IsFed uuid times json capacity p.feed
    pub handed : p.feed.consumer.sent ≡ p.received ++ p.feed.queue
    pub picked : Picks p.system.taken p.received
    pub runs : Run uuid order events repo config db0 p.system
    pub succeeds : (e : Error) → p.outcome ≡ some (some e) → ⊥

  internal-taken :
      {s s' : System Db} (x : Step uuid order events repo s s')
      → IsInternal uuid order events repo x
      → s'.taken ≡ s.taken
  internal-taken (Step.handle marked seen e) i = absurd i
  internal-taken Step.swap i = refl
  internal-taken (Step.put_day ctx a db before l after h g) i = refl
  internal-taken (Step.put_month ctx a db before l after h g) i = refl
  internal-taken (Step.fail_day ctx a db e before l after h g) i = refl
  internal-taken (Step.fail_month ctx a db e before l after h g) i = refl
  internal-taken (Step.end w before after h) i = refl
  internal-taken (Step.cleanup now) i = refl
  internal-taken (Step.receive p uc h g) i = refl
  internal-taken (Step.read_day ctx p t es h g k) i = refl
  internal-taken (Step.no_day p h g) i = refl
  internal-taken (Step.unread_day ctx p t e h g k) i = refl
  internal-taken (Step.read_month ctx t es h g) i = refl
  internal-taken (Step.no_month h) i = refl
  internal-taken (Step.unread_month ctx t e h g) i = refl

  Act-IsServed :
      {p q : Service Db} → Act uuid times json order events repo p q → IsServed p → IsServed q
  Act-IsServed {p} (consume f step) v =
      let (new, (sent, (queued, same))) = Feeding-Sends uuid times json capacity step in
      record {
        fed = Feeding-IsFed uuid times json capacity step v.fed;
        handed =
            sent
            ∙ (ap (λ es. es ++ new) v.handed
                ∙ (append_assoc p.received p.feed.queue new
                    ∙ ap (λ es. p.received ++ es) (sym queued)));
        picked = v.picked;
        runs = v.runs;
        succeeds = v.succeeds;
      }
  Act-IsServed {p} (receive marked seen e rest r q) v = record {
    fed = receive-IsFed uuid times json capacity rest v.fed (omega (arith, ap length q));
    handed =
        v.handed ∙ (ap (λ es. p.received ++ es) q ∙ sym (append_assoc p.received (e ∷ []) rest));
    picked = Picks-counted (is_duplicate uuid p.system.uc e) e p.system.taken p.received v.picked;
    runs = Run.next v.runs (Step.handle marked seen e);
    succeeds = v.succeeds;
  }
  Act-IsServed {p} (exit r h x) v = record {
    fed = v.fed;
    handed = v.handed;
    picked = v.picked;
    runs = Run.next v.runs Step.swap;
    succeeds = v.succeeds;
  }
  Act-IsServed {p} (internal s x i) v = record {
    fed = v.fed;
    handed = v.handed;
    picked = subst (λ es. Picks es p.received) (sym (internal-taken x i)) v.picked;
    runs = Run.next v.runs x;
    succeeds = v.succeeds;
  }

  not_stopped :
      {p : Service Db} (e : Error)
      → IsServed p
      → p.feed.canceled ≡ false
      → p.feed.reader ≡ stopped (some e)
      → ⊥
  not_stopped e v open_now r = absurd (cc (v.fed.leaving (subst HasStopped (sym r) tt), open_now))

  Advance-IsServed :
      {p q : Service Db} → Advance uuid times json order events repo p q → IsServed p → IsServed q
  Advance-IsServed (act o a) v = Act-IsServed a v
  Advance-IsServed (signalled o d) v = record {
    fed = cancel-IsFed uuid times json capacity v.fed;
    handed = v.handed;
    picked = v.picked;
    runs = v.runs;
    succeeds = v.succeeds;
  }
  Advance-IsServed (sleep_over o d) v = record {
    fed = v.fed;
    handed = v.handed;
    picked = v.picked;
    runs = v.runs;
    succeeds = λ e h. absurd (cc (h));
  }
  Advance-IsServed (consumer_failed e o d r) v = absurd (not_stopped e v d r)

  -- In every state of the aggregator's program, however its goroutines interleave: each committed message
  -- holds no event or its event was sent to the channel before; the channel is closed exactly when the
  -- consumer has returned, which it does only after the signal, and holds at most 1000 events; the events
  -- that were sent are those that `processEvents` received followed by those in the channel; the events
  -- that were counted are received ones, in order and none twice; the goroutines with the storage have run
  -- as those of `Run` do; and `run` never returns an error.
  pub run-IsServed :
      (p : Service Db) → Reached uuid times json order events repo config db0 p → IsServed p
  unfolding new_service initial
  run-IsServed p here = record {
    fed = new-IsFed uuid times json capacity;
    handed = refl;
    picked = nothing;
    runs = Run.here;
    succeeds = λ e h. absurd (cc (h));
  }
  run-IsServed p (next r a) = Advance-IsServed a (run-IsServed _ r)
