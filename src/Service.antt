-- ===== src/Service.antt =====
-- cmd/aggregator/main.go: the consumer of internal/infrastructure/kafka/consumer.go and the goroutines of
-- `Run` of internal/usecase/aggregate_events.go on the channel of events, and the end of the program.
pub mod Served
pub mod Stored
use network_actions_aggregat.Prelude.{
  ℕ, ◌≡◌, ◌⊎◌, true, false, Option, none, some, List, [], ◌∷◌, ◌++◌,
}
use network_actions_aggregat.Clock.{Time}
use network_actions_aggregat.Entity.{Event}
use network_actions_aggregat.Entity.Errors.{Error, context_canceled}
use network_actions_aggregat.Package.{UuidPackage, TimePackage, JsonPackage}
use network_actions_aggregat.Message.{KafkaEventMessage}
use network_actions_aggregat.Buffer.{Aggregate}
use network_actions_aggregat.Repository.{EventRepository, AggregationRepository}
use network_actions_aggregat.Kafka.Feed.{Feed, new_feed, stopped, Feeding}
use network_actions_aggregat.Aggregator.{Config, Progress, running, returned}
use network_actions_aggregat.Aggregator.System.{
  System, initial, after_event, after_swap, Step, IsInternal,
}

-- The consumer with the channel and the context, the goroutines of `Run` with the storage, the events that
-- `processEvents` received, whether it runs, and what `run` returned.
pub record Service (Db : Type 0) : Type 0 where
  pub feed : Feed
  pub system : System Db
  pub received : List Event
  pub processing : Progress
  pub outcome : Option (Option Error)

unfoldable pub new_service : {Db : Type 0} → Config → Db → Service Db
new_service config db = record {
  feed = new_feed;
  system = initial config db;
  received = [];
  processing = running;
  outcome = none;
}

-- `make(chan *entity.Event, 1000)`.
abbrev pub capacity : ℕ
capacity = 1000

-- The two exits of `processEvents`: its context is done, or the channel is closed and empty.
abbrev pub Exits : Feed → Option Error → Type 0
Exits f r =
    ((f.canceled ≡ true) × (r ≡ some context_canceled))
    ⊎ ((f.consumer.channel_closed ≡ true) × ((f.queue ≡ []) × (r ≡ none)))

module _ (uuid : UuidPackage) (times : TimePackage) (json : JsonPackage KafkaEventMessage)
    {Db : Type 0} (order : List Aggregate → List Aggregate) (events : EventRepository Db)
    (repo : AggregationRepository Db) where
  -- A step while `run` waits. `internal` is one of the other goroutines of `Run`, or of the flush with which
  -- `processEvents` ends, which begins with a swap.
  pub data Act : Service Db → Service Db → Type 0 where
    consume :
        {p : Service Db} (f : Feed)
        → Feeding uuid times json capacity p.feed f
        → Act p (record p { feed = f })
    receive :
        {p : Service Db} (marked seen : Time) (e : Event) (rest : List Event)
        → p.processing ≡ running
        → p.feed.queue ≡ e ∷ rest
        → Act p (record p {
          feed = record p.feed { queue = rest };
          system = after_event uuid marked seen e p.system;
          received = p.received ++ e ∷ [];
        })
    exit :
        {p : Service Db} (r : Option Error)
        → p.processing ≡ running
        → Exits p.feed r
        → Act p (record p { system = after_swap order p.system; processing = returned r })
    internal :
        {p : Service Db} (s : System Db) (x : Step uuid order events repo p.system s)
        → IsInternal uuid order events repo x
        → Act p (record p { system = s })

  -- A step of the program. `run` waits for a signal or an error of a goroutine on `errChan`; the one of `Run`
  -- is `context.Canceled`, which is not sent there. After a signal it sleeps and returns nil.
  pub data Advance : Service Db → Service Db → Type 0 where
    act : {p p' : Service Db} → p.outcome ≡ none → Act p p' → Advance p p'
    signalled :
        {p : Service Db}
        → p.outcome ≡ none
        → p.feed.canceled ≡ false
        → Advance p (record p { feed = record p.feed { canceled = true } })
    sleep_over :
        {p : Service Db}
        → p.outcome ≡ none
        → p.feed.canceled ≡ true
        → Advance p (record p { outcome = some none })
    consumer_failed :
        {p : Service Db} (e : Error)
        → p.outcome ≡ none
        → p.feed.canceled ≡ false
        → p.feed.reader ≡ stopped (some e)
        → Advance p (record p { feed = record p.feed { canceled = true }; outcome = some (some e) })

  pub data Reached (config : Config) (db : Db) : Service Db → Type 0 where
    here : Reached config db (new_service config db)
    next : {p q : Service Db} → Reached config db p → Advance p q → Reached config db q
