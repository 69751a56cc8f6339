-- ===== src/Ingest/Pool.antt =====
-- internal/usecase/ingest_events.go: `ProcessEvents`, whose workers share the channel and the storage and
-- take their rounds in any order.
pub mod Saved
use network_actions_aggregat.Prelude.{
  ℕ, zero, suc, ◌≡◌, Option, none, some, List, [], ◌∷◌, ◌++◌, All,
}
use network_actions_aggregat.Entity.{Event, validate}
use network_actions_aggregat.Entity.Errors.{Error}
use network_actions_aggregat.Repository.{EventRepository}
use network_actions_aggregat.Ingest.{
  Config, Signal, done, closed, received, ticked, Worker, working, finished, round,
}
use network_actions_aggregat.Ingest.Delivery.{keep_valid}

-- The workers, the storage, the first error that one of them returned, which the group keeps, and the
-- valid events that they received, in order.
pub record Pool (Db : Type 0) : Type 0 where
  pub workers : List Worker
  pub db : Db
  pub first_error : Option Error
  pub taken : List Event

-- `config.WorkersCount` workers with empty batches.
abbrev pub new_workers : ℕ → List Worker
new_workers zero = []
new_workers (suc n) = working [] ∷ new_workers n

unfoldable pub new_pool : {Db : Type 0} → Config → Db → Pool Db
new_pool config db = record {
  workers = new_workers config.workers_count;
  db = db;
  first_error = none;
  taken = [];
}

-- The group keeps the first error; `ctx.Err()` of a worker is one.
abbrev pub keep_error : Option Error → Worker → Option Error
keep_error (some e) w = some e
keep_error none (finished (some e)) = some e
keep_error none (finished none) = none
keep_error none (working batch) = none

-- The valid event that a round receives.
abbrev pub taken_in : Signal → List Event
taken_in (done e c) = []
taken_in (closed c) = []
taken_in (received e c) = keep_valid e (validate e) []
taken_in (ticked c) = []

-- The pool once a worker between `before` and `after` has taken a round.
abbrev pub after_round :
    {Db : Type 0} → Pool Db → List Worker → Worker → List Worker → Signal → Db → Pool Db
after_round p before w after x db = record p {
  workers = before ++ w ∷ after;
  db = db;
  first_error = keep_error p.first_error w;
  taken = p.taken ++ taken_in x;
}

module _ {Db : Type 0} (repo : EventRepository Db) (config : Config) where
  -- A worker that has not returned takes a round.
  pub data Step : Pool Db → Pool Db → Type 0 where
    take_round :
        {p : Pool Db} (before : List Worker) (batch : List Event) (after : List Worker) (x : Signal)
        (w : Worker) (db : Db)
        → p.workers ≡ before ++ working batch ∷ after
        → round repo config batch x p.db ≡ (w, db)
        → Step p (after_round p before w after x db)

  pub data Run (db : Db) : Pool Db → Type 0 where
    here : Run db (new_pool config db)
    next : {p p' : Pool Db} → Run db p → Step p p' → Run db p'

-- A worker that has returned.
abbrev pub HasReturned : Worker → Type 0
HasReturned (working batch) = ⊥
HasReturned (finished r) = Unit

-- `group.Wait()` is over: `ProcessEvents` returns the first error.
abbrev pub IsOver : {Db : Type 0} → Pool Db → Type 0
IsOver p = All HasReturned p.workers
