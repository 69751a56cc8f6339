-- ===== src/LoadTest/Sending.antt =====
-- cmd/generator/main.go: `generateAndSendEvents` and `generateAndSendDuplicates`, with their generator and
-- their workers as the steps of a relation. What a worker does with a batch that was sent or failed is a
-- parameter, as the two functions differ there.
pub mod Progress
pub mod Outcome
use network_actions_aggregat.Prelude.{
  ℕ, zero, suc, ◌+◌, ◌*◌, ◌<◌, ◌≡◌, Bool, true, false, Option, none, some, List, [], ◌∷◌, ◌++◌, map,
  length, ltb, if◌then◌else◌,
}
use network_actions_aggregat.Clock.{Time}
use network_actions_aggregat.Entity.{Event, Uuid}
use network_actions_aggregat.Entity.Errors.{Error, message}
use network_actions_aggregat.Verifier.Tracking.{Verifier, track_sent_batch}
use network_actions_aggregat.LoadTest.{Metrics}

-- The batches to come, those put into the channel so far, the channel and whether it is closed; the
-- workers: how many wait for a batch, the batches in `SendBatch`, how many wait to report an error and
-- how many have returned; the errors in their channel; and what the workers share.
pub record Senders (S : Type 0) : Type 0 where
  pub coming : List (List Event)
  pub all_events : List Event
  pub events_chan : List (List Event)
  pub closed : Bool
  pub idle : ℕ
  pub sending : List (List Event)
  pub reporting : ℕ
  pub exited : ℕ
  pub errors : ℕ
  pub shared : S

unfoldable pub start : {S : Type 0} → ℕ → List (List Event) → S → Senders S
start workers batches s = record {
  coming = batches;
  all_events = [];
  events_chan = [];
  closed = false;
  idle = workers;
  sending = [];
  reporting = 0;
  exited = 0;
  errors = 0;
  shared = s;
}

module _ {S : Type 0} (workers : ℕ) (succeeded : Time → List Event → S → S)
    (failed : List Event → S → S) where
  -- The generator puts a batch into the channel, whose capacity is twice the workers; or finds the context
  -- done; or has no batch left. It closes the channel in the end.
  -- A worker receives a batch; sends it, with the clock read afterwards, or fails; reports the error into
  -- a channel of a capacity of one for each worker; and returns when the channel is empty and closed.
  pub data Step : Senders S → Senders S → Type 0 where
    put :
        {s : Senders S} (b : List Event) (bs : List (List Event))
        → s.coming ≡ b ∷ bs
        → s.closed ≡ false
        → length s.events_chan < workers * 2
        → Step s (record s {
          coming = bs;
          all_events = s.all_events ++ b;
          events_chan = s.events_chan ++ b ∷ [];
        })
    stop :
        {s : Senders S} (b : List Event) (bs : List (List Event))
        → s.coming ≡ b ∷ bs
        → s.closed ≡ false
        → Step s (record s { all_events = s.all_events ++ b; closed = true })
    close : {s : Senders S} → s.coming ≡ [] → s.closed ≡ false → Step s (record s { closed = true })
    receive :
        {s : Senders S} (b : List Event) (bs : List (List Event)) (n : ℕ)
        → s.events_chan ≡ b ∷ bs
        → s.idle ≡ suc n
        → Step s (record s { events_chan = bs; idle = n; sending = b ∷ s.sending })
    succeed :
        {s : Senders S} (now : Time) (xs : List (List Event)) (b : List Event)
        (ys : List (List Event))
        → s.sending ≡ xs ++ b ∷ ys
        → Step s
            (record s { sending = xs ++ ys; idle = suc s.idle; shared = succeeded now b s.shared })
    fail :
        {s : Senders S} (xs : List (List Event)) (b : List Event) (ys : List (List Event))
        → s.sending ≡ xs ++ b ∷ ys
        → Step s (record s {
          sending = xs ++ ys;
          reporting = suc s.reporting;
          shared = failed b s.shared;
        })
    report :
        {s : Senders S} (n : ℕ)
        → s.reporting ≡ suc n
        → s.errors < workers
        → Step s (record s { reporting = n; idle = suc s.idle; errors = suc s.errors })
    exit :
        {s : Senders S} (n : ℕ)
        → s.events_chan ≡ []
        → s.closed ≡ true
        → s.idle ≡ suc n
        → Step s (record s { idle = n; exited = suc s.exited })

  -- The runs of the function.
  pub data Run (batches : List (List Event)) (s0 : S) : Senders S → Type 0 where
    here : Run batches s0 (start workers batches s0)
    next : {s s' : Senders S} → Run batches s0 s → Step s s' → Run batches s0 s'

-- After `wg.Wait()`: the error that the function returns.
unfoldable pub send_result : {S : Type 0} → Senders S → Option Error
send_result s = if ltb 0 s.errors then some (message "encountered errors during sending") else none

-- What the workers of `generateAndSendEvents` share, and what they do with a batch, with the reading of
-- the clock in `TrackSentBatch`.
abbrev pub sent_batch : Time → List Event → Metrics × Verifier → Metrics × Verifier
sent_batch now es (m, v) = (
  record m { events_sent = m.events_sent + length es },
  track_sent_batch now (map (λ e. e.event_id) es) v,
)

abbrev pub failed_batch : List Event → Metrics × Verifier → Metrics × Verifier
failed_batch es (m, v) = (record m { events_failed = m.events_failed + length es }, v)

-- Those of `generateAndSendDuplicates`.
abbrev pub sent_duplicates : Time → List Event → Metrics → Metrics
sent_duplicates now es m = record m { duplicates_sent = m.duplicates_sent + length es }

abbrev pub failed_duplicates : List Event → Metrics → Metrics
failed_duplicates es m = m
