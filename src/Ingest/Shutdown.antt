-- ===== src/Ingest/Shutdown.antt =====
-- A round of a worker whose context is done.
use network_actions_aggregat.Prelude.{
  ◌≡◌, refl, ap, ◌∙◌, Option, none, some, List, [], ◌∷◌, ◌++◌, inl, inr, Option-cases, Bool-cases,
  ℕ, length, leb,
}
use network_actions_aggregat.Entity.{Event, validate}
use network_actions_aggregat.Entity.Errors.{Error}
use network_actions_aggregat.Repository.{EventRepository}
use network_actions_aggregat.Ingest.Retry.{IsAtomic, retry_loop_sound, retry_loop-unchanged}
use network_actions_aggregat.Ingest.{
  Config, Contexts, Signal, done, closed, received, ticked, Worker, working, finished, after_save,
  save_batch_with_retry, save_rest, take_event, round,
}

-- A storage that gives an error when an insert of events is called with a context that is done.
abbrev pub RefusesDone : {Db : Type 0} → EventRepository Db → Type 0
RefusesDone {Db} repo =
    (x : Error) (e : Event) (es : List Event) (db : Db)
    → (repo.batch_insert (some x) (e ∷ es) db).1 ≡ none
    → ⊥

-- The contexts of the save that a signal may start.
abbrev pub contexts_of : Signal → Contexts
contexts_of (done e c) = c
contexts_of (closed c) = c
contexts_of (received e c) = c
contexts_of (ticked c) = c

after_save-db : {Db : Type 0} (r : Db × Option Error) (next : Worker) → (after_save r next).1 ≡ r.0
after_save-db (db, none) next = refl
after_save-db (db, some e) next = refl

module _ {Db : Type 0} (repo : EventRepository Db) (config : Config) (atomic : IsAtomic repo)
    (refuses : RefusesDone repo) (x : Error) where
  -- Every attempt is given the context that is done.
  abbrev AllDone : Contexts → Type 0
  AllDone c = (n : ℕ) → c.calls n ≡ some x

  save-unchanged :
      (c : Contexts) (e : Event) (es : List Event) (db : Db)
      → AllDone c
      → (save_batch_with_retry repo config c (e ∷ es) db).0 ≡ db
  unfolding save_batch_with_retry
  save-unchanged c e es db d =
      elim (Option-cases (save_batch_with_retry repo config c (e ∷ es) db).1) [
        | inl saved ↦
            let (m, lo, hi, found) =
              retry_loop_sound repo config c (e ∷ es) atomic db config.retry_attempts 0 none
                saved in
            absurd (refuses x e es db (rw (← d m) (ap (λ r. r.1) found ∙ saved)))
        | inr (y, h) ↦
            retry_loop-unchanged repo config c (e ∷ es) atomic db config.retry_attempts 0 none y h
      ]

  save_rest-unchanged :
      (c : Contexts) (batch : List Event) (next : Worker) (db : Db)
      → AllDone c
      → (save_rest repo config c batch next db).1 ≡ db
  unfolding save_rest
  save_rest-unchanged c [] next db d = refl
  save_rest-unchanged c (e ∷ es) next db d =
      after_save-db (save_batch_with_retry repo config c (e ∷ es) db) next
      ∙ save-unchanged c e es db d

  take_event-unchanged :
      (c : Contexts) (e : Event) (es : List Event) (db : Db)
      → AllDone c
      → (take_event repo config c (e ∷ es) db).1 ≡ db
  unfolding take_event
  take_event-unchanged c e es db d = elim (Bool-cases (leb config.batch_size (length (e ∷ es)))) [
    | inl full ↦ rw full (
        after_save-db (save_batch_with_retry repo config c (e ∷ es) db) (working [])
        ∙ save-unchanged c e es db d)
    | inr room ↦ rw room
  ]

  taken-unchanged :
      (c : Contexts) (batch : List Event) (e : Event) (db : Db)
      → AllDone c
      → (take_event repo config c (batch ++ e ∷ []) db).1 ≡ db
  taken-unchanged c [] e db d = take_event-unchanged c e [] db d
  taken-unchanged c (b ∷ bs) e db d = take_event-unchanged c b (bs ++ e ∷ []) db d

  -- A round leaves the storage as it was.
  pub round-unchanged :
      (batch : List Event) (s : Signal) (db : Db)
      → AllDone (contexts_of s)
      → (round repo config batch s db).1 ≡ db
  unfolding round
  round-unchanged batch (done e c) db d = save_rest-unchanged c batch (finished (some e)) db d
  round-unchanged batch (closed c) db d = save_rest-unchanged c batch (finished none) db d
  round-unchanged batch (received e c) db d = elim (Option-cases (validate e)) [
    | inl valid ↦ rw (valid, round) (taken-unchanged c batch e db d)
    | inr (y, bad) ↦ rw (bad, round)
  ]
  round-unchanged batch (ticked c) db d = save_rest-unchanged c batch (working []) db d
