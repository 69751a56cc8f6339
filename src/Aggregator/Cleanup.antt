-- ===== src/Aggregator/Cleanup.antt =====
-- `cleanupProcessedEvents`, and so the window of the duplicate filter.
use network_actions_aggregat.Prelude.{
  ℕ, ◌-◌, ◌≡◌, refl, Bool, false, not, Option, none, some, arith, ltb, leb, String, string_eq,
  Bool-cases, inl, inr, ◌∙◌,
}
use mathlib.Core.Path.{ap, fun_ext}
use network_actions_aggregat.Dict.{
  Dict, lookup, Distinct, retain, lookup-retain-some, lookup-retain-none, lookup-retain_drop,
}
use network_actions_aggregat.Clock.{Time, hour}
use network_actions_aggregat.Entity.{Event}
use network_actions_aggregat.Package.{UuidPackage}
use network_actions_aggregat.Aggregator.{
  Aggregator, is_some, is_duplicate, cleanup_processed_events,
}
use network_actions_aggregat.Aggregator.Invariant.{Inv}

-- The time of an entry passes a test; a missing entry does not.
abbrev pub passes : (Time → Bool) → Option Time → Bool
passes p none = false
passes p (some t) = p t

not-ltb : (a b : ℕ) → not (ltb a b) ≡ leb b a
not-ltb a b = ground arith

is_some-retain :
    (p : Time → Bool) (k : String) (m : Dict String Time)
    → Distinct m
    → (o : Option Time) → lookup k m ≡ o
    → is_some (lookup k (retain p m)) ≡ passes p o
is_some-retain p k m d none h = rw (lookup-retain-none p k m h)
is_some-retain p k m d (some t) h = elim (Bool-cases (p t)) [
  | inl stays ↦ rw (lookup-retain-some p k t m h stays, stays)
  | inr goes ↦ rw (lookup-retain_drop p k t m d h goes, goes)
]

-- After a cleanup an event is a duplicate exactly if it was processed no more than an hour before the
-- cleanup, in a state that satisfies the invariant.
pub is_duplicate-cleanup :
    (uuid : UuidPackage) (now : Time) (uc : Aggregator) (e : Event)
    → Inv uc
    → is_duplicate uuid (cleanup_processed_events now uc) e
      ≡ passes
          (λ t. leb (now.nanos - hour) t.nanos)
          (lookup (uuid.string e.event_id) uc.processed_events)
unfolding is_duplicate cleanup_processed_events
is_duplicate-cleanup uuid now uc e v =
    is_some-retain _ (uuid.string e.event_id) uc.processed_events v.distinct _ refl
    ∙ ap (λ p. passes p (lookup (uuid.string e.event_id) uc.processed_events))
        (fun_ext (λ t. not-ltb t.nanos (now.nanos - hour)))
