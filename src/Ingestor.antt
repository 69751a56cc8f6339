-- ===== src/Ingestor.antt =====
-- cmd/ingestor/main.go: the goroutines of `run` on the channel of events, the consumer of
-- internal/infrastructure/kafka/consumer.go and the workers of internal/usecase/ingest_events.go, and
-- the end of the program. A step is what one goroutine does without waiting; a round of a worker, with
-- its save, is one.
pub mod Kept
pub mod Stored
pub mod Tables
pub mod Shutdown
pub mod Exit
use network_actions_aggregat.Prelude.{
  ℕ, ◌*◌, ◌<◌, ◌≡◌, ◌⊎◌, Bool, true, false, ◌||◌, Option, none, some, List, [], ◌∷◌, ◌++◌, length,
}
use network_actions_aggregat.Entity.{Event}
use network_actions_aggregat.Entity.Errors.{Error, message, context_canceled}
use network_actions_aggregat.Package.{UuidPackage, TimePackage, JsonPackage}
use network_actions_aggregat.Message.{KafkaEventMessage}
use network_actions_aggregat.Repository.{EventRepository}
use network_actions_aggregat.Kafka.{Fetched}
use network_actions_aggregat.Kafka.Feed.{Feed, new_feed, sending, HasStopped, after_send, Feeding}
use network_actions_aggregat.Ingest.{
  Config, Contexts, Signal, done, closed, received, ticked, Worker, working, round,
}
use network_actions_aggregat.Ingest.Pool.{Pool, new_pool, after_round, IsOver}

-- The consumer with the channel and the context, the workers with the storage, whether the goroutine that
-- prints statistics runs, and what `run` returned.
pub record Ingestor (Db : Type 0) : Type 0 where
  pub feed : Feed
  pub pool : Pool Db
  pub printing : Bool
  pub outcome : Option (Option Error)

unfoldable pub new_ingestor : {Db : Type 0} → Config → Db → Ingestor Db
new_ingestor config db = record {
  feed = new_feed;
  pool = new_pool config db;
  printing = true;
  outcome = none;
}

-- `make(chan *entity.Event, usecaseConfig.BatchSize*2)`.
abbrev pub capacity : Config → ℕ
capacity config = config.batch_size * 2

abbrev pub is_error : Option Error → Bool
is_error none = false
is_error (some e) = true

-- The context of `errgroup.WithContext` is done once the outer one is or a worker returned an error.
abbrev pub group_done : {Db : Type 0} → Ingestor Db → Bool
group_done p = p.feed.canceled || is_error p.pool.first_error

-- Every call of a save that starts in a context that is done is given one.
abbrev pub Inherits : Bool → Contexts → Type 0
Inherits d c = d ≡ true → (n : ℕ) → c.calls n ≡ some context_canceled

-- What the `select` of a worker can meet, and the channel after it.
pub data Offers {Db : Type 0} (p : Ingestor Db) : Signal → List Event → Type 0 where
  offers_done :
      (c : Contexts)
      → group_done p ≡ true
      → Inherits (group_done p) c
      → Offers p (done context_canceled c) p.feed.queue
  offers_closed :
      (c : Contexts)
      → p.feed.consumer.channel_closed ≡ true
      → p.feed.queue ≡ []
      → Inherits (group_done p) c
      → Offers p (closed c) []
  offers_event :
      (c : Contexts) (e : Event) (rest : List Event)
      → p.feed.queue ≡ e ∷ rest
      → Inherits (group_done p) c
      → Offers p (received e c) rest
  offers_tick : (c : Contexts) → Inherits (group_done p) c → Offers p (ticked c) p.feed.queue

-- `wg.Wait()` is over.
abbrev pub AllReturned : {Db : Type 0} → Ingestor Db → Type 0
AllReturned p = HasStopped p.feed.reader × (IsOver p.pool × (p.printing ≡ false))

module _ (uuid : UuidPackage) (times : TimePackage) (json : JsonPackage KafkaEventMessage)
    {Db : Type 0} (repo : EventRepository Db) (config : Config) where
  -- A step of a goroutine. `hand_directly` is a send to a worker that waits, the only one that a channel
  -- without capacity has.
  pub data Act : Ingestor Db → Ingestor Db → Type 0 where
    consume :
        {p : Ingestor Db} (f : Feed)
        → Feeding uuid times json (capacity config) p.feed f
        → Act p (record p { feed = f })
    hand_directly :
        {p : Ingestor Db} (m : Fetched) (e : Event) (c : Contexts) (before : List Worker)
        (batch : List Event) (after : List Worker) (w : Worker) (db : Db)
        → p.feed.reader ≡ sending m e
        → p.feed.queue ≡ []
        → Inherits (group_done p) c
        → p.pool.workers ≡ before ++ working batch ∷ after
        → round repo config batch (received e c) p.pool.db ≡ (w, db)
        → Act p (record p {
          feed = after_send m e p.feed;
          pool = after_round p.pool before w after (received e c) db;
        })
    work :
        {p : Ingestor Db} (before : List Worker) (batch : List Event) (after : List Worker)
        (x : Signal) (queue : List Event) (w : Worker) (db : Db)
        → p.pool.workers ≡ before ++ working batch ∷ after
        → Offers p x queue
        → round repo config batch x p.pool.db ≡ (w, db)
        → Act p (record p {
          feed = record p.feed { queue = queue };
          pool = after_round p.pool before w after x db;
        })
    stop_printing :
        {p : Ingestor Db} → p.feed.canceled ≡ true → Act p (record p { printing = false })
    signalled :
        {p : Ingestor Db}
        → p.feed.canceled ≡ false
        → Act p (record p { feed = record p.feed { canceled = true } })

  -- A step of the program, which ends with `run`: once all goroutines have returned, or 30 seconds after
  -- the signal.
  pub data Advance : Ingestor Db → Ingestor Db → Type 0 where
    act : {p p' : Ingestor Db} → p.outcome ≡ none → Act p p' → Advance p p'
    end_run :
        {p : Ingestor Db}
        → p.outcome ≡ none
        → p.feed.canceled ≡ true
        → AllReturned p
        → Advance p (record p { outcome = some none })
    time_out :
        {p : Ingestor Db}
        → p.outcome ≡ none
        → p.feed.canceled ≡ true
        → Advance p (record p { outcome = some (some (message "shutdown timeout")) })

  pub data Leads (p : Ingestor Db) : Ingestor Db → Type 0 where
    here : Leads p p
    next : {q q' : Ingestor Db} → Leads p q → Advance q q' → Leads p q'

  -- The states of the program from an empty start over a storage.
  abbrev pub Reached : Db → Ingestor Db → Type 0
  Reached db p = Leads (new_ingestor config db) p
