-- ===== src/Kafka/Feed.antt =====
-- internal/infrastructure/kafka/consumer.go: the goroutine of `ConsumeEvents` beside those that receive from
-- its channel. A step is what it does without waiting.
pub mod Fed
use network_actions_aggregat.Prelude.{
  ℕ, ◌+◌, ◌<◌, ◌≤◌, ◌≡◌, refl, subst, sym, ◌∙◌, inl, inr, Bool, true, false, Option, none, some,
  List, [], ◌∷◌, ◌++◌, All, arith, length,
}
use mathlib.Core.List.{append-nil}
use network_actions_aggregat.Clock.{Time}
use network_actions_aggregat.Entity.{Event}
use network_actions_aggregat.Entity.Errors.{Error, Result, ok, err, message}
use network_actions_aggregat.Package.{UuidPackage, TimePackage, JsonPackage}
use network_actions_aggregat.Message.{KafkaEventMessage}
use network_actions_aggregat.Kafka.{
  Fetched, Consumer, new_run, commit, hand_over, leave, close_reader, parse_event,
}

-- Where the goroutine is: at `FetchMessage`, at the send of an event, at the commit of its message, or
-- returned.
pub data Reader : Type 0 where
  fetching : Reader
  sending : Fetched → Event → Reader
  committing : Fetched → Reader
  stopped : Option Error → Reader

-- The goroutine, what it has done, the events in the channel and whether the context is done.
pub record Feed : Type 0 where
  pub reader : Reader
  pub consumer : Consumer
  pub queue : List Event
  pub canceled : Bool

abbrev pub new_feed : Feed
new_feed = record { reader = fetching; consumer = new_run; queue = []; canceled = false }

-- After `parseEvent`: the event is sent, or the message is committed without one.
abbrev pub after_parse : Fetched → Result Event → Reader
after_parse m (ok e) = sending m e
after_parse m (err x) = committing m

abbrev pub HasStopped : Reader → Type 0
HasStopped (stopped e) = Unit
HasStopped r = ⊥

-- The goroutine once its event was sent.
abbrev pub after_send : Fetched → Event → Feed → Feed
after_send m e f = record f { reader = committing m; consumer = hand_over e f.consumer }

module _ (uuid : UuidPackage) (times : TimePackage) (json : JsonPackage KafkaEventMessage)
    (capacity : ℕ) where
  pub data Feeding : Feed → Feed → Type 0 where
    context_done :
        {f : Feed} (closing : Option Error)
        → f.reader ≡ fetching
        → f.canceled ≡ true
        → Feeding f (record f {
          reader = stopped closing;
          consumer = (close_reader uuid times json closing f.consumer).0;
        })
    fetch_failed : {f : Feed} → f.reader ≡ fetching → Feeding f f
    fetch :
        {f : Feed} (m : Fetched) (now : Time)
        → f.reader ≡ fetching
        → Feeding f (record f { reader = after_parse m (parse_event uuid times json now m.value) })
    send :
        {f : Feed} (m : Fetched) (e : Event)
        → f.reader ≡ sending m e
        → length f.queue < capacity
        → Feeding f (record (after_send m e f) { queue = f.queue ++ e ∷ [] })
    stop_sending :
        {f : Feed} (m : Fetched) (e : Event)
        → f.reader ≡ sending m e
        → f.canceled ≡ true
        → Feeding f (record f {
          reader = stopped (some (message "context canceled"));
          consumer = (leave f.consumer (some (message "context canceled"))).0;
        })
    commit_message :
        {f : Feed} (m : Fetched) (o : Option Error)
        → f.reader ≡ committing m
        → Feeding f (record f { reader = fetching; consumer = commit o m f.consumer })
