-- ===== src/Ingestor/Stored.antt =====
-- The storage of the program of cmd/ingestor/main.go, against what its consumer sent to the channel.
use network_actions_aggregat.Prelude.{◌≡◌, sym, ap, ◌∙◌, none, List}
use network_actions_aggregat.Entity.{Event}
use network_actions_aggregat.Package.{UuidPackage, TimePackage, JsonPackage}
use network_actions_aggregat.Message.{KafkaEventMessage}
use network_actions_aggregat.Repository.{EventRepository}
use network_actions_aggregat.Ingest.{Config}
use network_actions_aggregat.Ingest.Retry.{IsAtomic}
use network_actions_aggregat.Ingest.Delivery.{Growth}
use network_actions_aggregat.Ingest.Pool.Saved.{merged, merged-merge, run-Sound}
use network_actions_aggregat.Pipeline.{valid}
use network_actions_aggregat.Ingestor.{Ingestor, Reached}
use network_actions_aggregat.Ingestor.Kept.{run-IsKept}

module _ (uuid : UuidPackage) (times : TimePackage) (json : JsonPackage KafkaEventMessage)
    {Db C : Type 0} (repo : EventRepository Db) (config : Config) (atomic : IsAtomic repo)
    (g : Growth repo C)
    (merge_comm : (x : C) (es fs : List Event)
      → g.merge (g.merge x es) fs ≡ g.merge (g.merge x fs) es) where
  open g use {content, merge, merge-append}

  -- Over a storage that an insert with an error leaves as it was and whose content grows by the batches of
  -- the others, in whatever order: as long as no worker returned an error, what is stored, what the
  -- workers hold in their batches and the valid events in the channel together are what was stored at the
  -- start and all the valid events that the consumer sent.
  pub run-stored :
      (db0 : Db) (p : Ingestor Db)
      → Reached uuid times json repo config db0 p
      → p.pool.first_error ≡ none
      → merged repo config atomic g merge_comm
          (merge (content p.pool.db) (valid p.feed.queue))
          p.pool.workers
        ≡ merge (content db0) (valid p.feed.consumer.sent)
  run-stored db0 p r h =
      let v = run-IsKept uuid times json repo config db0 p r in
      merged-merge repo config atomic g merge_comm (content p.pool.db) (valid p.feed.queue)
        p.pool.workers
      ∙ (ap (λ x. merge x (valid p.feed.queue))
            (run-Sound repo config atomic g merge_comm db0 p.pool v.runs h)
          ∙ (sym (merge-append (content db0) p.pool.taken (valid p.feed.queue))
              ∙ ap (merge (content db0)) (sym v.handed)))
