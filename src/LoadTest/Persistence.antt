-- ===== src/LoadTest/Persistence.antt =====
-- What it means that the load test has waited for its events.
use mathlib.Core.List.{Perm}
use network_actions_aggregat.Prelude.{
  ℕ, suc, ◌≡◌, refl, sym, ap, subst, ◌∙◌, Bool, true, false, ◌||◌, Bool-cases, inl, inr, Option,
  none, some, List, [], ◌∷◌, arith, length, nat_beq, nat_beq_iff,
}
use network_actions_aggregat.Clock.{Time}
use network_actions_aggregat.Entity.{Uuid}
use network_actions_aggregat.Entity.Errors.{Error}
use network_actions_aggregat.Repository.{Context, EventRepository}
use network_actions_aggregat.Verifier.Tracking.{Verifier, has, stats, verify_all}
use network_actions_aggregat.Verifier.Tracking.Checked.{FindsIds}
use network_actions_aggregat.Verifier.Tracking.Persisted.{
  IsTracked, all_verified, verify_all-Asked, verify_all-IsTracked,
}
use network_actions_aggregat.LoadTest.{
  Config, Metrics, Wait, timeout, tick, Waiting, waiting, returned, after_verify, wait_from,
  wait_for_persistence,
}

module _ {Db : Type 0} (stored : Db → Uuid → Bool) where
  -- Whether an event is stored at a tick.
  abbrev pub ever_stored : Uuid → List (Wait Db) → Bool
  ever_stored id [] = false
  ever_stored id (timeout ∷ xs) = ever_stored id xs
  ever_stored id (tick ctx now db order ∷ xs) = stored db id || ever_stored id xs

  -- A `range` loop meets each key once, in some order.
  abbrev pub Permutes : List (Wait Db) → Type 0
  Permutes [] = Unit
  Permutes (timeout ∷ xs) = Permutes xs
  Permutes (tick ctx now db order ∷ xs) = ((l : List Uuid) → Perm (order l) l) × Permutes xs

is_nil : Waiting → Bool
is_nil waiting = false
is_nil (returned none) = true
is_nil (returned (some e)) = false

-- What holds once the wait has ended with nil.
record IsDone (v : Verifier) (m : Metrics) : Type 0 where
  complete : length v.verified_events ≡ length v.sent_events
  shown : m.events_verified ≡ length v.sent_events

after_verify-state :
    (limit i : ℕ) (r : Verifier × Option Error) (m : Metrics) → (after_verify limit i r m).1 ≡ r.0
after_verify-state limit i (v, none) m = refl
after_verify-state limit i (v, some e) m = refl

after_verify-IsDone :
    (limit i : ℕ) (r : Verifier × Option Error) (m : Metrics)
    → is_nil (after_verify limit i r m).0 ≡ true
    → IsDone r.0 (after_verify limit i r m).2
unfolding is_nil stats
after_verify-IsDone limit i (v, some e) m h = absurd (cc)
after_verify-IsDone limit i (v, none) m h =
    elim (Bool-cases (nat_beq (length v.verified_events) (length v.sent_events))) [
      | inl same ↦
          let eq = (nat_beq_iff (length v.verified_events) (length v.sent_events)).0 same in
          record { complete = eq; shown = eq }
      | inr other ↦ absurd (ground (arith, other, h))
    ]

module _ {Db : Type 0} (repo : EventRepository Db) (stored : Db → Uuid → Bool)
    (finds : FindsIds repo stored) (config : Config) where
  -- A wait that ended with nil.
  pub record IsPersisted (xs : List (Wait Db)) (v : Verifier) (r : Waiting × Verifier × Metrics)
      : Type 0 where
    pub all_stored :
        (id : Uuid)
        → has id v.sent_events ≡ true
        → (has id v.verified_events || ever_stored stored id xs) ≡ true
    pub all_counted : r.2.events_verified ≡ length v.sent_events
    pub all_verified : length r.1.verified_events ≡ length v.sent_events

  step-IsPersisted :
      (ctx : Context) (now : Time) (db : Db) (order : List Uuid → List Uuid) (xs : List (Wait Db))
      (v : Verifier) (r : Waiting × Verifier × Metrics)
      → IsPersisted xs (verify_all repo ctx now db order v).0 r
      → IsPersisted (tick ctx now db order ∷ xs) v r
  step-IsPersisted ctx now db order xs v r p =
      let a = verify_all-Asked repo stored finds ctx now db order v in
      record {
        all_stored = λ id h.
            ground
              (arith, p.all_stored id (ap (has id) (a id).result.sent ∙ h), (a id).result.verified);
        all_counted = p.all_counted ∙ ap length (a 0).result.sent;
        all_verified = p.all_verified ∙ ap length (a 0).result.sent;
      }

  wait_from-IsPersisted :
      (n : ℕ) (xs : List (Wait Db)) (s : Waiting × Verifier × Metrics)
      → IsTracked s.1
      → (is_nil s.0 ≡ true → IsDone s.1 s.2)
      → Permutes stored xs
      → is_nil (wait_from repo config n xs s).0 ≡ true
      → IsPersisted xs s.1 (wait_from repo config n xs s)
  unfolding wait_from is_nil
  wait_from-IsPersisted n [] (w, v, m) t d p h = record {
    all_stored = λ id k. ground (arith, all_verified v t (d h).complete id k);
    all_counted = (d h).shown;
    all_verified = (d h).complete;
  }
  wait_from-IsPersisted n (x ∷ xs) (returned e, v, m) t d p h = record {
    all_stored = λ id k. ground (arith, all_verified v t (d h).complete id k);
    all_counted = (d h).shown;
    all_verified = (d h).complete;
  }
  wait_from-IsPersisted n (timeout ∷ xs) (waiting, v, m) t d p h = absurd (cc)
  wait_from-IsPersisted n (tick ctx now db order ∷ xs) (waiting, v, m) t d p h =
      let limit = config.max_verify_iterations in
      let r = verify_all repo ctx now db order v in
      let s = after_verify limit (suc n) r m in
      let same = after_verify-state limit (suc n) r m in
      step-IsPersisted ctx now db order xs v _ (
        subst (λ u. IsPersisted xs u (wait_from repo config (suc n) xs s)) same
          (wait_from-IsPersisted (suc n) xs s
            (subst IsTracked (sym same)
              (verify_all-IsTracked repo stored finds ctx now db order v p.0 t))
            (λ k. subst (λ u. IsDone u s.2) (sym same) (after_verify-IsDone limit (suc n) r m k))
            p.1 h))

  -- If `waitForPersistence` returns nil, then every event that was sent had been verified before or was
  -- stored in the database at one of the checks, failed checks included, and both the verifier and the
  -- metric count as many verified events as were sent. The repository finds events by their ids, the verifier's
  -- maps are consistent at the start, and each `range` is in some order.
  pub wait_for_persistence-IsPersisted :
      (xs : List (Wait Db)) (v : Verifier) (m : Metrics)
      → IsTracked v
      → Permutes stored xs
      → (wait_for_persistence repo config xs v m).0 ≡ returned none
      → IsPersisted xs v (wait_for_persistence repo config xs v m)
  unfolding wait_for_persistence is_nil
  wait_for_persistence-IsPersisted xs v m t p h =
      wait_from-IsPersisted 0 xs (waiting, v, m) t (λ k. absurd (cc)) p (ap is_nil h)
