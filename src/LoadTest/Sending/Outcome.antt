-- ===== src/LoadTest/Sending/Outcome.antt =====
-- What `generateAndSendEvents` has done when it returns.
use network_actions_aggregat.Prelude.{
  ℕ, suc, ◌+◌, ◌<◌, ◌≡◌, refl, sym, ap, ◌∙◌, true, ◌||◌, none, List, [], ◌∷◌, ◌++◌, map, arith,
  length, length-append,
}
use network_actions_aggregat.Clock.{Time}
use network_actions_aggregat.Entity.{Event, Uuid}
use network_actions_aggregat.Verifier.Tracking.{Verifier, has, has_id, track_sent, track_sent_batch}
use network_actions_aggregat.Verifier.Tracking.Found.{has-insert}
use network_actions_aggregat.LoadTest.{Metrics}
use network_actions_aggregat.LoadTest.Sending.{
  Senders, start, put, stop, close, receive, succeed, fail, report, exit, Run, here, next,
  send_result, sent_batch, failed_batch,
}
use network_actions_aggregat.LoadTest.Sending.Progress.{failures, run-Counted}

abbrev pub concat : List (List Event) → List Event
concat [] = []
concat (b ∷ bs) = b ++ concat bs

append_assoc : (a b c : List Event) → (a ++ b) ++ c ≡ a ++ (b ++ c)
append_assoc [] b c = refl
append_assoc (x ∷ a) b c = ap (◌∷◌ x) (append_assoc a b c)

concat-append : (cs bs : List (List Event)) → concat (cs ++ bs) ≡ concat cs ++ concat bs
concat-append [] bs = refl
concat-append (c ∷ cs) bs =
    ap (◌++◌ c) (concat-append cs bs) ∙ sym (append_assoc c (concat cs) (concat bs))

append_nil : (a : List Event) → a ++ [] ≡ a
append_nil [] = refl
append_nil (x ∷ a) = ap (◌∷◌ x) (append_nil a)

pub has_id-append : (a b : List Event) (id : Uuid) → has_id (a ++ b) id ≡ has_id a id || has_id b id
has_id-append [] b id = refl
has_id-append (e ∷ a) b id = ground (arith, has_id-append a b id)

size_middle :
    (xs ys : List (List Event)) (b : List Event)
    → length (concat (xs ++ b ∷ ys)) ≡ length b + length (concat (xs ++ ys))
size_middle [] ys b = length-append b (concat ys)
size_middle (x ∷ xs) ys b = omega (
  arith,
  length-append x (concat (xs ++ b ∷ ys)),
  length-append x (concat (xs ++ ys)),
  size_middle xs ys b,
)

id_middle :
    (id : Uuid) (xs ys : List (List Event)) (b : List Event)
    → has_id (concat (xs ++ b ∷ ys)) id ≡ has_id b id || has_id (concat (xs ++ ys)) id
id_middle id [] ys b = has_id-append b (concat ys) id
id_middle id (x ∷ xs) ys b = ground (
  arith,
  has_id-append x (concat (xs ++ b ∷ ys)) id,
  has_id-append x (concat (xs ++ ys)) id,
  id_middle id xs ys b,
)

has-track_sent_batch :
    (id : Uuid) (now : Time) (es : List Event) (v : Verifier)
    → has id (track_sent_batch now (map (λ e. e.event_id) es) v).sent_events
      ≡ has_id es id || has id v.sent_events
unfolding track_sent_batch track_sent
has-track_sent_batch id now [] v = refl
has-track_sent_batch id now (e ∷ es) v = ground (
  arith,
  has-track_sent_batch id now es (track_sent now e.event_id v),
  has-insert id e.event_id now v.sent_events,
)

module _ (workers : ℕ) (batches : List (List Event)) (m0 : Metrics) (v0 : Verifier) where
  abbrev pub Sent : Senders (Metrics × Verifier) → Type 0
  Sent s = Run workers sent_batch failed_batch batches (m0, v0) s

  -- How often the generator found the context done.
  abbrev pub stops : {s : Senders (Metrics × Verifier)} → Sent s → ℕ
  stops here = 0
  stops (next r (stop b bs h k)) = suc (stops r)
  stops (next r (put b bs h k l)) = stops r
  stops (next r (close h k)) = stops r
  stops (next r (receive b bs n h k)) = stops r
  stops (next r (succeed now xs b ys h)) = stops r
  stops (next r (fail xs b ys h)) = stops r
  stops (next r (report n h k)) = stops r
  stops (next r (exit n h k l)) = stops r

  -- Where the events are, and when the channel is closed.
  record Kept (s : Senders (Metrics × Verifier)) : Type 0 where
    all : s.all_events ++ concat s.coming ≡ concat batches
    end : s.closed ≡ true → s.coming ≡ []
    left : 0 < s.exited → (s.closed ≡ true) × (s.events_chan ≡ [])
    counts :
        length s.all_events + m0.events_sent + m0.events_failed
        ≡ length (concat s.events_chan)
          + length (concat s.sending)
          + s.shared.0.events_sent
          + s.shared.0.events_failed

  run-Kept : (s : Senders (Metrics × Verifier)) (r : Sent s) → stops r ≡ 0 → Kept s
  unfolding start
  run-Kept s here h = record {
    all = refl;
    end = λ k. absurd (cc);
    left = λ k. absurd (omega arith);
    counts = omega arith;
  }
  run-Kept s (next r (stop b bs h k)) n = absurd (omega arith)
  run-Kept s' (next {s} r (put b bs h k l)) n =
      let i = run-Kept s r n in
      record {
        all =
            append_assoc s.all_events b (concat bs)
            ∙ (ap (λ c. s.all_events ++ concat c) (sym h) ∙ i.all);
        end = λ e. absurd (cc);
        left = λ e. absurd (cc ((i.left e).0, k));
        counts = omega (
          arith,
          i.counts,
          length-append s.all_events b,
          ap length (concat-append s.events_chan (b ∷ [])),
          length-append (concat s.events_chan) (b ++ []),
          length-append b [],
        );
      }
  run-Kept s' (next {s} r (close h k)) n =
      let i = run-Kept s r n in
      record {
        all = i.all;
        end = λ e. h;
        left = λ e. absurd (cc ((i.left e).0, k));
        counts = i.counts;
      }
  run-Kept s' (next {s} r (receive b bs m h k)) n =
      let i = run-Kept s r n in
      record {
        all = i.all;
        end = i.end;
        left = λ e. absurd (cc ((i.left e).1, h));
        counts = omega (
          arith,
          i.counts,
          ap (λ c. length (concat c)) h,
          length-append b (concat bs),
          length-append b (concat s.sending),
        );
      }
  run-Kept s' (next {s} r (succeed now xs b ys h)) n =
      let i = run-Kept s r n in
      record {
        all = i.all;
        end = i.end;
        left = i.left;
        counts = omega (arith, i.counts, ap (λ c. length (concat c)) h, size_middle xs ys b);
      }
  run-Kept s' (next {s} r (fail xs b ys h)) n =
      let i = run-Kept s r n in
      record {
        all = i.all;
        end = i.end;
        left = i.left;
        counts = omega (arith, i.counts, ap (λ c. length (concat c)) h, size_middle xs ys b);
      }
  run-Kept s' (next {s} r (report m h k)) n =
      let i = run-Kept s r n in
      record { all = i.all; end = i.end; left = i.left; counts = i.counts }
  run-Kept s' (next {s} r (exit m h k l)) n =
      let i = run-Kept s r n in
      record { all = i.all; end = i.end; left = λ e. (k, h); counts = i.counts }

  -- The events put into the channel, of which none has failed: they wait, are being sent or are tracked.
  abbrev KeptId : Uuid → Senders (Metrics × Verifier) → Type 0
  KeptId id s = (has_id s.all_events id || has id v0.sent_events) ≡ (
      has_id (concat s.events_chan) id
      || has_id (concat s.sending) id
      || has id s.shared.1.sent_events)

  run-KeptId :
      (id : Uuid) (s : Senders (Metrics × Verifier)) (r : Sent s)
      → stops r ≡ 0
      → failures workers sent_batch failed_batch r ≡ 0
      → KeptId id s
  unfolding start
  run-KeptId id s here n f = refl
  run-KeptId id s' (next r (stop b bs h k)) n f = absurd (omega arith)
  run-KeptId id s' (next r (fail xs b ys h)) n f = absurd (omega arith)
  run-KeptId id s' (next {s} r (put b bs h k l)) n f = ground (
    arith,
    run-KeptId id s r n f,
    has_id-append s.all_events b id,
    ap (λ c. has_id c id) (concat-append s.events_chan (b ∷ [])),
    has_id-append (concat s.events_chan) (b ++ []) id,
    has_id-append b [] id,
  )
  run-KeptId id s' (next {s} r (close h k)) n f = run-KeptId id s r n f
  run-KeptId id s' (next {s} r (receive b bs m h k)) n f = ground (
    arith,
    run-KeptId id s r n f,
    ap (λ c. has_id (concat c) id) h,
    has_id-append b (concat bs) id,
    has_id-append b (concat s.sending) id,
  )
  run-KeptId id s' (next {s} r (succeed now xs b ys h)) n f = ground (
    arith,
    run-KeptId id s r n f,
    ap (λ c. has_id (concat c) id) h,
    id_middle id xs ys b,
    has-track_sent_batch id now b s.shared.1,
  )
  run-KeptId id s' (next {s} r (report m h k)) n f = run-KeptId id s r n f
  run-KeptId id s' (next {s} r (exit m h k l)) n f = run-KeptId id s r n f

  -- What a complete run has done.
  pub record IsSent (s : Senders (Metrics × Verifier)) : Type 0 where
    pub returned_all : s.all_events ≡ concat batches
    pub accounted :
        s.shared.0.events_sent + s.shared.0.events_failed
        ≡ length (concat batches) + m0.events_sent + m0.events_failed
    pub tracked :
        send_result s ≡ none
        → (id : Uuid)
        → has id s.shared.1.sent_events ≡ (has_id (concat batches) id || has id v0.sent_events)

  no_sending : (s : Senders (Metrics × Verifier)) → length s.sending ≡ 0 → s.sending ≡ []
  no_sending s h =
      elim (s.sending) as (λ l. length l ≡ 0 → l ≡ []) [
        | [] ↦ λ k. refl
        | x ∷ xs ↦ λ k. absurd (omega arith)
      ]
        h

  -- When `generateAndSendEvents` returns, with a worker at least and a context that stayed open, it has
  -- generated every batch and returns their events; each of them is counted as sent or as failed; and if
  -- it returns no error, the verifier tracks exactly their ids besides those that it tracked before.
  pub run-IsSent :
      (s : Senders (Metrics × Verifier)) (r : Sent s)
      → 0 < workers
      → stops r ≡ 0
      → s.exited ≡ workers
      → IsSent s
  unfolding send_result
  run-IsSent s r w n h =
      let c = run-Counted workers sent_batch failed_batch batches (m0, v0) s r in
      let i = run-Kept s r n in
      let left = i.left (omega (arith, w, h)) in
      let quiet = no_sending s (omega (arith, c.placed, h)) in
      let generated : s.all_events ≡ concat batches =
        sym (append_nil s.all_events)
        ∙ (ap (λ l. s.all_events ++ concat l) (sym (i.end left.0)) ∙ i.all) in
      record {
        returned_all = generated;
        accounted = omega (
          arith,
          i.counts,
          ap length generated,
          ap (λ l. length (concat l)) left.1,
          ap (λ l. length (concat l)) quiet,
        );
        tracked = λ e id. ground (
          arith,
          run-KeptId id s r n (ground (arith, e, c.failed_count, c.placed, h)),
          ap (λ l. has_id l id) generated,
          ap (λ l. has_id (concat l) id) left.1,
          ap (λ l. has_id (concat l) id) quiet,
        );
      }
