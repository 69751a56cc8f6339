-- ===== src/LoadTest/Sending/Progress.antt =====
-- Whether the load test's senders end.
use network_actions_aggregat.Prelude.{
  ℕ, zero, suc, ◌+◌, ◌*◌, ◌≤◌, ◌<◌, ◌≡◌, refl, ap, Bool, true, false, Bool-cases, ◌⊎◌, inl, inr,
  List, [], ◌∷◌, ◌++◌, arith, length, length-append,
}
use network_actions_aggregat.Clock.{Time}
use network_actions_aggregat.Entity.{Event}
use network_actions_aggregat.LoadTest.Sending.{
  Senders, start, Step, put, stop, close, receive, succeed, fail, report, exit, Run, here, next,
}

List-cases : {A : Type 0} (xs : List A) → (xs ≡ []) ⊎ ((x : A) × (ys : List A) × (xs ≡ x ∷ ys))
List-cases [] = inl refl
List-cases (x ∷ xs) = inr (x, xs, refl)

zero_or_suc : (n : ℕ) → (n ≡ 0) ⊎ ((m : ℕ) × (n ≡ suc m))
zero_or_suc zero = inl refl
zero_or_suc (suc n) = inr (n, refl)

module _ {S : Type 0} (workers : ℕ) (succeeded : Time → List Event → S → S)
    (failed : List Event → S → S) where
  -- The batches whose sending has failed in a run, and the steps of a run.
  abbrev pub after_step : {s s' : Senders S} → Step workers succeeded failed s s' → ℕ → ℕ
  after_step (fail xs b ys h) n = suc n
  after_step (put b bs h k l) n = n
  after_step (stop b bs h k) n = n
  after_step (close h k) n = n
  after_step (receive b bs m h k) n = n
  after_step (succeed now xs b ys h) n = n
  after_step (report m h k) n = n
  after_step (exit m h k l) n = n

  module _ {batches : List (List Event)} {s0 : S} where
    abbrev pub failures : {s : Senders S} → Run workers succeeded failed batches s0 s → ℕ
    failures here = 0
    failures (next r x) = after_step x (failures r)

    abbrev pub steps : {s : Senders S} → Run workers succeeded failed batches s0 s → ℕ
    steps here = 0
    steps (next r x) = suc (steps r)

  pub middle :
      (xs ys : List (List Event)) (b : List Event) → length (xs ++ b ∷ ys) ≡ suc (length (xs ++ ys))
  middle xs ys b = omega (arith, length-append xs (b ∷ ys), length-append xs ys)

  -- Each worker is in one of its four places; a failed batch is an error in the channel or waits to be one.
  pub record Counted (n : ℕ) (s : Senders S) : Type 0 where
    pub placed : s.idle + length s.sending + s.reporting + s.exited ≡ workers
    pub failed_count : s.errors + s.reporting ≡ n
    pub capacity : s.errors ≤ workers

  step-Counted :
      {s s' : Senders S} (n : ℕ) (x : Step workers succeeded failed s s')
      → Counted n s
      → Counted (after_step x n) s'
  step-Counted n (put b bs h k l) c = record {
    placed = c.placed;
    failed_count = c.failed_count;
    capacity = c.capacity;
  }
  step-Counted n (stop b bs h k) c = record {
    placed = c.placed;
    failed_count = c.failed_count;
    capacity = c.capacity;
  }
  step-Counted n (close h k) c = record {
    placed = c.placed;
    failed_count = c.failed_count;
    capacity = c.capacity;
  }
  step-Counted n (receive b bs m h k) c = record {
    placed = omega (arith, c.placed, k);
    failed_count = c.failed_count;
    capacity = c.capacity;
  }
  step-Counted n (succeed now xs b ys h) c = record {
    placed = omega (arith, c.placed, ap length h, middle xs ys b);
    failed_count = c.failed_count;
    capacity = c.capacity;
  }
  step-Counted n (fail xs b ys h) c = record {
    placed = omega (arith, c.placed, ap length h, middle xs ys b);
    failed_count = omega (arith, c.failed_count);
    capacity = c.capacity;
  }
  step-Counted n (report m h k) c = record {
    placed = omega (arith, c.placed, h);
    failed_count = omega (arith, c.failed_count, h);
    capacity = omega (arith, k);
  }
  step-Counted n (exit m h k l) c = record {
    placed = omega (arith, c.placed, l);
    failed_count = c.failed_count;
    capacity = c.capacity;
  }

  -- A step that can be taken.
  abbrev pub Moves : Senders S → Type 0
  Moves s = (s' : Senders S) × Step workers succeeded failed s s'

  -- What is left to do.
  abbrev pub open_work : Bool → ℕ
  open_work true = 0
  open_work false = 1

  abbrev pub work : Senders S → ℕ
  work s =
      length s.coming * 5
      + length s.events_chan * 4
      + length s.sending * 3
      + s.reporting * 2
      + s.idle
      + open_work s.closed

  module _ (batches : List (List Event)) (s0 : S) where
    pub run-Counted :
        (s : Senders S) (r : Run workers succeeded failed batches s0 s) → Counted (failures r) s
    unfolding start
    run-Counted s here = record {
      placed = omega arith;
      failed_count = refl;
      capacity = omega arith;
    }
    run-Counted s (next r x) = step-Counted (failures r) x (run-Counted _ r)

    -- The senders return, which takes every worker to have returned, only if no more batches failed than
    -- there are workers: with one failed batch more they wait for ever.
    pub exited-failures :
        (s : Senders S) (r : Run workers succeeded failed batches s0 s)
        → s.exited ≡ workers
        → failures r ≤ workers
    exited-failures s r h =
        let c = run-Counted s r in omega (arith, c.placed, c.failed_count, c.capacity, h)

    -- A worker that waits finds a batch, or the closed channel, or the generator can go on.
    idle-Moves : (s : Senders S) (n : ℕ) → 0 < workers → s.idle ≡ suc n → Moves s
    idle-Moves s n w h = elim (List-cases s.events_chan) [
      | inr (b, bs, full) ↦ (_, receive b bs n full h)
      | inl empty ↦ elim (Bool-cases s.closed) [
        | inl over ↦ (_, exit n empty over h)
        | inr unclosed ↦ elim (List-cases s.coming) [
          | inl none_left ↦ (_, close none_left unclosed)
          | inr (b, bs, more) ↦ (_, put b bs more unclosed (omega (arith, ap length empty, w)))
        ]
      ]
    ]

    Counted-Moves :
        (now : Time) (s : Senders S) (n : ℕ)
        → Counted n s
        → 0 < workers
        → n ≤ workers
        → s.exited < workers
        → Moves s
    Counted-Moves now s n c w few going = elim (List-cases s.sending) [
      | inr (b, bs, busy) ↦ (_, succeed now [] b bs busy)
      | inl quiet ↦ elim (zero_or_suc s.reporting) [
        | inr (m, waits) ↦ (_, report m waits (omega (arith, c.failed_count, few, waits)))
        | inl no_report ↦ elim (zero_or_suc s.idle) [
          | inr (m, waits) ↦ idle-Moves s m w waits
          | inl no_idle ↦
              absurd (omega (arith, c.placed, ap length quiet, no_report, no_idle, going))
        ]
      ]
    ]

    -- As long as no more batches have failed than there are workers, and there is a worker, the senders are
    -- never stuck: until every worker has returned, one of them or the generator has a step to take.
    pub run-Moves :
        (now : Time) (s : Senders S) (r : Run workers succeeded failed batches s0 s)
        → 0 < workers
        → failures r ≤ workers
        → s.exited < workers
        → Moves s
    run-Moves now s r w few going = Counted-Moves now s (failures r) (run-Counted s r) w few going

    step_work : {s s' : Senders S} → Step workers succeeded failed s s' → work s' < work s
    step_work {s} (put b bs h k l) =
        omega (arith, ap length h, length-append s.events_chan (b ∷ []))
    step_work (stop b bs h k) = omega (arith, ap open_work k)
    step_work (close h k) = omega (arith, ap open_work k)
    step_work (receive b bs n h k) = omega (arith, ap length h, k)
    step_work (succeed now xs b ys h) = omega (arith, ap length h, middle xs ys b)
    step_work (fail xs b ys h) = omega (arith, ap length h, middle xs ys b)
    step_work (report n h k) = omega (arith, h)
    step_work (exit n h k l) = omega (arith, l)

    -- Every run is finite, and of a length that is known beforehand: no run takes more steps than five for
    -- each batch, one for each worker and one more.
    pub run_steps :
        (s : Senders S) (r : Run workers succeeded failed batches s0 s)
        → steps r + work s ≤ length batches * 5 + workers + 1
    unfolding start
    run_steps s here = omega arith
    run_steps s (next r x) = omega (arith, run_steps _ r, step_work x)
