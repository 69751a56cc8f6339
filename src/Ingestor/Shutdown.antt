-- ===== src/Ingestor/Shutdown.antt =====
-- The program of cmd/ingestor/main.go once the context of its workers is done.
use network_actions_aggregat.Prelude.{
  ◌≡◌, refl, sym, ap, ◌∙◌, Bool, true, false, ◌||◌, Option, none, some, List,
}
use network_actions_aggregat.Entity.{Event}
use network_actions_aggregat.Entity.Errors.{Error, context_canceled}
use network_actions_aggregat.Package.{UuidPackage, TimePackage, JsonPackage}
use network_actions_aggregat.Message.{KafkaEventMessage}
use network_actions_aggregat.Repository.{EventRepository}
use network_actions_aggregat.Ingest.{Config, Signal, Worker, received}
use network_actions_aggregat.Ingest.Retry.{IsAtomic}
use network_actions_aggregat.Ingest.Pool.{keep_error}
use network_actions_aggregat.Ingest.Shutdown.{RefusesDone, contexts_of, round-unchanged}
use network_actions_aggregat.Kafka.Feed.Fed.{Feeding-Sends}
use network_actions_aggregat.Ingestor.{
  Ingestor, is_error, group_done, capacity, Inherits, Offers, offers_done, offers_closed,
  offers_event, offers_tick, Act, consume, hand_directly, work, stop_printing, signalled, Advance,
  act, end_run, time_out, Leads, here, next,
}

is_error-keep_error :
    (b : Bool) (o : Option Error) (w : Worker)
    → (b || is_error o) ≡ true
    → (b || is_error (keep_error o w)) ≡ true
is_error-keep_error true o w h = refl
is_error-keep_error false (some e) w h = refl
is_error-keep_error false none w h = absurd (cc)

done-same :
    {b c : Bool} (o : Option Error) → c ≡ b → (b || is_error o) ≡ true → (c || is_error o) ≡ true
done-same o e h = ap (λ x. x || is_error o) e ∙ h

Offers-Inherits :
    {Db : Type 0} {p : Ingestor Db} {x : Signal} {queue : List Event}
    → Offers p x queue
    → Inherits (group_done p) (contexts_of x)
Offers-Inherits (offers_done c d i) = i
Offers-Inherits (offers_closed c d q i) = i
Offers-Inherits (offers_event c e rest q i) = i
Offers-Inherits (offers_tick c i) = i

module _ (uuid : UuidPackage) (times : TimePackage) (json : JsonPackage KafkaEventMessage)
    {Db : Type 0} (repo : EventRepository Db) (config : Config) (atomic : IsAtomic repo)
    (refuses : RefusesDone repo) where
  -- The context is still done, and the storage as it was.
  abbrev StaysDone : Ingestor Db → Ingestor Db → Type 0
  StaysDone p q = (group_done q ≡ true) × (q.pool.db ≡ p.pool.db)

  Act-StaysDone :
      {p q : Ingestor Db}
      → Act uuid times json repo config p q
      → group_done p ≡ true
      → StaysDone p q
  Act-StaysDone {p} (consume f step) h =
      let (new, (sent, (queued, same))) = Feeding-Sends uuid times json (capacity config) step in
      (done-same p.pool.first_error same h, refl)
  Act-StaysDone {p} (hand_directly m e c before batch after w db r q i hw hr) h = (
    is_error-keep_error p.feed.canceled p.pool.first_error w h,
    ap (λ s. s.1) (sym hr)
        ∙ round-unchanged repo config atomic refuses context_canceled batch (received e c) p.pool.db
            (i h),
  )
  Act-StaysDone {p} (work before batch after x queue w db hw offered hr) h = (
    is_error-keep_error p.feed.canceled p.pool.first_error w h,
    ap (λ s. s.1) (sym hr)
        ∙ round-unchanged repo config atomic refuses context_canceled batch x p.pool.db
            (Offers-Inherits offered h),
  )
  Act-StaysDone (stop_printing d) h = (h, refl)
  Act-StaysDone {p} (signalled d) h = (refl, refl)

  Advance-StaysDone :
      {p q : Ingestor Db}
      → Advance uuid times json repo config p q
      → group_done p ≡ true
      → StaysDone p q
  Advance-StaysDone (act o a) h = Act-StaysDone a h
  Advance-StaysDone (end_run o d r) h = (h, refl)
  Advance-StaysDone (time_out o d) h = (h, refl)

  -- Over a storage that refuses a call with a context that is done and that an insert with an error leaves as
  -- it was: once the context of the workers is done, after a signal or the first error that a worker
  -- returned, nothing is stored any more, so what is then in the batches of the workers and in the channel
  -- never is, although the consumer may have committed it.
  pub done-unchanged :
      (p q : Ingestor Db)
      → Leads uuid times json repo config p q
      → group_done p ≡ true
      → (group_done q ≡ true) × (q.pool.db ≡ p.pool.db)
  done-unchanged p q here h = (h, refl)
  done-unchanged p q (next r a) h =
      let (d, same) = done-unchanged p _ r h in
      let (d', same') = Advance-StaysDone a d in (d', same' ∙ same)
