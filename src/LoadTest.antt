-- ===== src/LoadTest.antt =====
-- cmd/generator/main.go: the phases of the load test. The log lines and the final report's layout are
-- left out; `Metrics` are the counters.
pub mod Batches
pub mod Phases
pub mod Sending
pub mod Verdict
pub mod Persistence
use network_actions_aggregat.Prelude.{
  ℕ, zero, suc, ◌+◌, ◌-◌, ◌*◌, ◌%◌, Bool, true, false, ◌&&◌, Option, none, some, List, [], ◌∷◌,
  ◌++◌, length, leb, ltb, nat_beq, string_eq, if◌then◌else◌,
}
use network_actions_aggregat.Clock.{Time}
use network_actions_aggregat.Entity.{Event, Uuid}
use network_actions_aggregat.Entity.Errors.{Error, errorf, errorf_at, message}
use network_actions_aggregat.Repository.{Context, EventRepository, AggregationRepository}
use network_actions_aggregat.Verifier.{verify_aggregations}
use network_actions_aggregat.Verifier.Tracking.{Verifier, VerificationStats, stats, verify_all}

-- The counts of `Config`; durations are the business of the clock.
pub record Config : Type 0 where
  pub total_events : ℕ
  pub duplicate_events : ℕ
  pub user_count : ℕ
  pub batch_size : ℕ
  pub workers_count : ℕ
  pub max_verify_iterations : ℕ

pub record Metrics : Type 0 where
  pub events_sent : ℕ
  pub events_verified : ℕ
  pub events_failed : ℕ
  pub duplicates_sent : ℕ
  pub duplicates_rejected : ℕ

-- `if i+batchSize > total { batchSize = total - i }`.
abbrev pub batch_at : ℕ → ℕ → ℕ → ℕ
batch_at total size i = if ltb total (i + size) then total - i else size

-- The loop `for i := 0; i < total; i += size` over the batches, from `i`, as the sizes of the batches.
-- The fuel bounds the rounds: a size of 0 makes the loop run for ever.
unfoldable pub batch_sizes : ℕ → ℕ → ℕ → ℕ → List ℕ
batch_sizes zero total size i = []
batch_sizes (suc fuel) total size i =
    let rest = batch_at total size i ∷ batch_sizes fuel total size (i + size) in
    if ltb i total then rest else []

-- `originalEvents[idx]`; the index is in range.
abbrev pub event_at : List Event → ℕ → List Event
event_at [] n = []
event_at (e ∷ es) zero = e ∷ []
event_at (e ∷ es) (suc n) = event_at es n

-- The batch of duplicates from `i`, for `size` values of `j` from `j`.
unfoldable pub duplicates : List Event → ℕ → ℕ → List Event
duplicates originals zero n = []
duplicates originals (suc size) n =
    event_at originals (n % length originals) ++ duplicates originals size (suc n)

-- What the loop of `waitForPersistence` meets: the timeout, or a tick with the context and the database
-- of a `VerifyAll`, the clock and the order of its `range`.
pub data Wait (Db : Type 0) : Type 0 where
  timeout : Wait Db
  tick : Context → Time → Db → (List Uuid → List Uuid) → Wait Db

-- The loop, or its return value.
pub data Waiting : Type 0 where
  waiting : Waiting
  returned : Option Error → Waiting

abbrev timeout_error : Error
timeout_error = message "timeout waiting for persistence"

abbrev iterations_error : Error
iterations_error = message "max verification iterations reached"

-- What follows a `VerifyAll` that returned nil.
abbrev pub after_check : ℕ → ℕ → Verifier → Waiting
after_check limit iteration v =
    if nat_beq (stats v).verified (stats v).total_sent
    then returned none
    else if leb limit iteration
    then returned (some iterations_error)
    else waiting

-- A failed `VerifyAll` is logged, and the loop continues.
abbrev pub after_verify : ℕ → ℕ → Verifier × Option Error → Metrics → Waiting × Verifier × Metrics
after_verify limit iteration (v, some e) m = (waiting, v, m)
after_verify limit iteration (v, none) m =
    (after_check limit iteration v, v, record m { events_verified = (stats v).verified })

module _ {Db : Type 0} (repo : EventRepository Db) (config : Config) where
  -- `waitForPersistence` over what it meets, from an iteration.
  unfoldable pub wait_from :
      ℕ → List (Wait Db) → Waiting × Verifier × Metrics → Waiting × Verifier × Metrics
  wait_from n [] s = s
  wait_from n (x ∷ xs) (returned e, v, m) = (returned e, v, m)
  wait_from n (timeout ∷ xs) (waiting, v, m) = (returned (some timeout_error), v, m)
  wait_from n (tick ctx now db order ∷ xs) (waiting, v, m) =
      wait_from (suc n) xs
        (after_verify config.max_verify_iterations (suc n) (verify_all repo ctx now db order v) m)

  unfoldable pub wait_for_persistence :
      List (Wait Db) → Verifier → Metrics → Waiting × Verifier × Metrics
  wait_for_persistence xs v m = wait_from 0 xs (waiting, v, m)

-- `verifyDuplicatesRejected`.
unfoldable pub verify_duplicates_rejected : Verifier → Metrics → ℕ → Metrics × Option Error
verify_duplicates_rejected v m expected =
    if nat_beq (stats v).verified expected
    then (record m { duplicates_rejected = m.duplicates_sent }, none)
    else (m, some (message "unexpected event count in DB"))

-- The verdict of `printFinalReport`.
unfoldable pub success : Config → Metrics → Bool
success config m =
    nat_beq m.events_verified config.total_events
    && nat_beq m.duplicates_rejected m.duplicates_sent
    && nat_beq m.events_failed 0
