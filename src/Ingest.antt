-- ===== src/Ingest.antt =====
-- internal/usecase/ingest_events.go: batches, retries and the loop of a worker. What the worker's
-- `select` and the clock do is a list of signals; the log lines are left out.
pub mod Retry
pub mod Delivery
pub mod Pool
pub mod Shutdown
use network_actions_aggregat.Prelude.{
  ℕ, zero, suc, Bool, true, false, Option, none, some, List, [], ◌∷◌, ◌++◌, leb, length, String,
  if◌then◌else◌,
}
use network_actions_aggregat.Entity.{Event, validate}
use network_actions_aggregat.Entity.Errors.{Error, errorf, errorf_at, errorf_nil}
use network_actions_aggregat.Repository.{Context, EventRepository}

-- Durations in nanoseconds; a count that is not positive is 0.
pub record Config : Type 0 where
  pub batch_size : ℕ
  pub batch_timeout : ℕ
  pub workers_count : ℕ
  pub retry_attempts : ℕ
  pub retry_delay : ℕ

-- The context during one save: what the `select` before an attempt finds, with `none` for the timer,
-- and what the attempt's call is given.
pub record Contexts : Type 0 where
  pub waits : ℕ → Context
  pub calls : ℕ → Context

abbrev save_text : String
save_text = "failed to save batch after %d attempts: %w"

-- The error after the last attempt; `lastErr` is nil if there was none.
abbrev pub exhausted : ℕ → Option Error → Error
exhausted attempts none = errorf_nil save_text attempts
exhausted attempts (some e) = errorf_at save_text attempts e

-- `if attempt > 0 { select … }`.
abbrev pub wait_before : Contexts → ℕ → Context
wait_before c zero = none
wait_before c (suc n) = c.waits (suc n)

-- What the `select` of a worker sees: the context is done, the channel is closed, an event, a tick;
-- each with the contexts of the save that it may start.
pub data Signal : Type 0 where
  done : Error → Contexts → Signal
  closed : Contexts → Signal
  received : Event → Contexts → Signal
  ticked : Contexts → Signal

-- A worker between two rounds of its loop, or its return value.
pub data Worker : Type 0 where
  working : List Event → Worker
  finished : Option Error → Worker

abbrev pub is_empty : List Event → Bool
is_empty [] = true
is_empty (x ∷ xs) = false

module _ {Db : Type 0} where
  -- A `select` that returns `ctx.Err()` if the context is done.
  abbrev pub unless_done : Context → Db → Db × Option Error → Db × Option Error
  unless_done none db next = next
  unless_done (some e) db next = (db, some e)

  -- `if err := …; err != nil { lastErr = err; continue }; return nil`.
  abbrev pub or_retry : Db × Option Error → (Error → Db → Db × Option Error) → Db × Option Error
  or_retry (db, none) again = (db, none)
  or_retry (db, some e) again = again e db

  -- A save that returns its error, or the worker in its next state.
  abbrev pub after_save : Db × Option Error → Worker → Worker × Db
  after_save (db, none) next = (next, db)
  after_save (db, some e) next = (finished (some e), db)

module _ {Db : Type 0} (repo : EventRepository Db) (config : Config) where
  -- The loop of `saveBatchWithRetry`, by the attempts that are left.
  unfoldable pub retry_loop : Contexts → List Event → ℕ → ℕ → Option Error → Db → Db × Option Error
  retry_loop c batch zero attempt last db = (db, some (exhausted config.retry_attempts last))
  retry_loop c batch (suc left) attempt last db =
      let insert =
        or_retry (repo.batch_insert (c.calls attempt) batch db)
          (λ e db'. retry_loop c batch left (suc attempt) (some e) db') in
      unless_done (wait_before c attempt) db insert

  -- `saveBatchWithRetry`.
  unfoldable pub save_batch_with_retry : Contexts → List Event → Db → Db × Option Error
  save_batch_with_retry c batch db = retry_loop c batch config.retry_attempts 0 none db

  -- `if len(batch) > 0 { if err := uc.saveBatchWithRetry(…) … }`, and then the next state.
  unfoldable pub save_rest : Contexts → List Event → Worker → Db → Worker × Db
  save_rest c batch next db =
      if is_empty batch then (next, db) else after_save (save_batch_with_retry c batch db) next

  -- A valid event joins the batch, which is saved once it is full.
  unfoldable pub take_event : Contexts → List Event → Db → Worker × Db
  take_event c batch db =
      if leb config.batch_size (length batch)
      then after_save (save_batch_with_retry c batch db) (working [])
      else (working batch, db)

  -- One round of the loop of `worker` with a batch.
  unfoldable pub round : List Event → Signal → Db → Worker × Db
  round batch (done e c) db = save_rest c batch (finished (some e)) db
  round batch (closed c) db = save_rest c batch (finished none) db
  round batch (received e c) db = elim (validate e) [
    | some x ↦ (working batch, db)
    | none ↦ take_event c (batch ++ e ∷ []) db
  ]
  round batch (ticked c) db = save_rest c batch (working []) db

  -- The loop of `worker` over the signals, from a batch.
  unfoldable pub worker_from : List Signal → Worker × Db → Worker × Db
  worker_from [] s = s
  worker_from (x ∷ xs) (finished r, db) = (finished r, db)
  worker_from (x ∷ xs) (working batch, db) = worker_from xs (round batch x db)

  -- `worker`: it starts with an empty batch.
  unfoldable pub worker : List Signal → Db → Worker × Db
  worker xs db = worker_from xs (working [], db)

  -- `ProcessSingleEvent`.
  unfoldable pub process_single_event : Context → Event → Db → Db × Option Error
  process_single_event ctx e db = elim (validate e) [
    | some x ↦ (db, some (errorf "invalid event" x))
    | none ↦ repo.batch_insert ctx (e ∷ []) db
  ]
