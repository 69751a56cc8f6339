-- ===== src/Ingestor/Exit.antt =====
-- The end of the program of cmd/ingestor/main.go.
use network_actions_aggregat.Prelude.{
  ◌≡◌, refl, sym, subst, ◌∙◌, Bool-cases, inl, inr, Bool, true, false, ◌||◌, Option, none, some,
  List, [], ◌∷◌, ◌++◌, All, All-append, arith,
}
use mathlib.Core.List.{append_assoc, append-nil}
use network_actions_aggregat.Entity.{Event}
use network_actions_aggregat.Entity.Errors.{Error, context_canceled}
use network_actions_aggregat.Package.{UuidPackage, TimePackage, JsonPackage}
use network_actions_aggregat.Message.{KafkaEventMessage}
use network_actions_aggregat.Repository.{EventRepository}
use network_actions_aggregat.Kafka.{commit}
use network_actions_aggregat.Ingest.{
  Config, Contexts, done, Worker, working, finished, after_save, save_rest, round,
}
use network_actions_aggregat.Ingest.Pool.{HasReturned, after_round}
use network_actions_aggregat.Kafka.Feed.{
  Reader, fetching, sending, committing, stopped, Feed, HasStopped, Feeding, context_done,
  stop_sending, commit_message,
}
use network_actions_aggregat.Ingestor.{
  Ingestor, capacity, offers_done, consume, work, stop_printing, signalled, act, end_run, Leads,
  here, next,
}

abbrev done_contexts : Contexts
done_contexts = record { waits = λ n. some context_canceled; calls = λ n. some context_canceled }

after_save-HasReturned :
    {Db : Type 0} (r : Db × Option Error) (o : Option Error)
    → HasReturned (after_save r (finished o)).0
after_save-HasReturned (db, none) o = tt
after_save-HasReturned (db, some e) o = tt

done_lem : (b c : Bool) → b ≡ true → (b || c) ≡ true
done_lem b c h = ground (arith, h)

module _ (uuid : UuidPackage) (times : TimePackage) (json : JsonPackage KafkaEventMessage)
    {Db : Type 0} (repo : EventRepository Db) (config : Config) where
  abbrev To : Ingestor Db → Ingestor Db → Type 0
  To = Leads uuid times json repo config

  Leads-trans : {p q r : Ingestor Db} → To p q → To q r → To p r
  Leads-trans a here = a
  Leads-trans a (next b x) = next (Leads-trans a b) x

  done-HasReturned :
      (batch : List Event) (db : Db)
      → HasReturned (round repo config batch (done context_canceled done_contexts) db).0
  unfolding round save_rest
  done-HasReturned [] db = tt
  done-HasReturned (e ∷ es) db = after_save-HasReturned _ (some context_canceled)

  -- The signal came, and `run` waits.
  abbrev Waits : Ingestor Db → Type 0
  Waits p = (p.feed.canceled ≡ true) × (p.outcome ≡ none)

  -- A step of the consumer.
  fed_by :
      (p : Ingestor Db) (f : Feed)
      → p.outcome ≡ none
      → Feeding uuid times json (capacity config) p.feed f
      → To p (record p { feed = f })
  fed_by p f o step = next here (act o (consume f step))

  stop_reader :
      (p : Ingestor Db) (r : Reader)
      → p.feed.reader ≡ r
      → Waits p
      → (q : Ingestor Db) × (To p q × (HasStopped q.feed.reader × Waits q))
  stop_reader p fetching h (d, o) = (_, (fed_by p _ o (context_done none h d), (tt, (d, o))))
  stop_reader p (sending m e) h (d, o) = (_, (fed_by p _ o (stop_sending m e h d), (tt, (d, o))))
  stop_reader p (committing m) h (d, o) =
      let f = record p.feed { reader = fetching; consumer = commit none m p.feed.consumer } in
      (
        _,
        (
          Leads-trans (fed_by p f o (commit_message m none h))
              (fed_by (record p { feed = f }) _ o (context_done none refl d)),
          (tt, (d, o)),
        ),
      )
  stop_reader p (stopped e) h w = (p, (here, (subst HasStopped (sym h) tt, w)))

  stop_workers :
      (p : Ingestor Db) (before after : List Worker)
      → p.pool.workers ≡ before ++ after
      → All HasReturned before
      → HasStopped p.feed.reader
      → Waits p
      → (q : Ingestor Db) × (To p q
          × ((HasStopped q.feed.reader × Waits q) × All HasReturned q.pool.workers))
  stop_workers p before [] h b s w =
      (p, (here, ((s, w), subst (All HasReturned) (sym (append-nil before) ∙ sym h) b)))
  stop_workers p before (finished r ∷ after) h b s w =
      stop_workers p (before ++ finished r ∷ []) after
        (h ∙ sym (append_assoc before (finished r ∷ []) after))
        (All-append HasReturned before (finished r ∷ []) b (tt, tt)) s w
  stop_workers p before (working batch ∷ after) h b s w =
      let x = done context_canceled done_contexts in
      let r = round repo config batch x p.pool.db in
      let q = record p { pool = after_round p.pool before r.0 after x r.1 } in
      let step : To p q = next here (
        act w.1 (
          work before batch after x p.feed.queue r.0 r.1 h
            (offers_done done_contexts (done_lem p.feed.canceled _ w.0) (λ d n. refl)) refl)) in
      let (q', (more, rest)) =
        stop_workers q (before ++ r.0 ∷ []) after (sym (append_assoc before (r.0 ∷ []) after))
          (All-append HasReturned before (r.0 ∷ []) b (done-HasReturned batch p.pool.db, tt)) s w in
      (q', (Leads-trans step more, rest))

  leave_run : (p : Ingestor Db) → Waits p → (q : Ingestor Db) × (To p q × (q.outcome ≡ some none))
  leave_run p w =
      let (q, (to_q, (s, w'))) = stop_reader p p.feed.reader refl w in
      let (r, (to_r, ((s', (d, o)), over))) = stop_workers q [] q.pool.workers refl tt s w' in
      let quiet : To r (record r { printing = false }) = next here (act o (stop_printing d)) in
      (_, (next (Leads-trans (Leads-trans to_q to_r) quiet) (end_run o d (s', (over, refl))), refl))

  -- However its goroutines stand, and whatever the storage answers: from every state in which `run` has not
  -- returned, the program can go on to one in which it has returned nil, with all goroutines returned.
  pub run-can_return :
      (p : Ingestor Db)
      → p.outcome ≡ none
      → (q : Ingestor Db) × (Leads uuid times json repo config p q × (q.outcome ≡ some none))
  run-can_return p o = elim (Bool-cases p.feed.canceled) [
    | inl d ↦ leave_run p (d, o)
    | inr d ↦
        let (q, (to_q, end_q)) =
          leave_run (record p { feed = record p.feed { canceled = true } }) (refl, o) in
        (q, (Leads-trans (next here (act o (signalled d))) to_q, end_q))
  ]
