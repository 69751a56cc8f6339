-- ===== src/Aggregator/Lateness.antt =====
-- Late events: `isLateEvent`, `markDirty` and the channel of dirty periods in internal/usecase/aggregate_events.go.
use mathlib.Core.List.{append_assoc, append-nil}
use network_actions_aggregat.Prelude.{
  ℕ, zero, suc, ◌+◌, ◌≤◌, contains, ◌≡◌, refl, ap, sym, subst, ◌∙◌, Bool, true, false, Bool-cases,
  inl, inr, some, List, [], ◌∷◌, ◌++◌, arith, ltb, leb, ◌==◌, nat_eq, length, length-append, take,
  if◌then◌else◌,
}
use network_actions_aggregat.Clock.{Time, truncate_day, month_start}
use network_actions_aggregat.Entity.{Event, Uuid}
use network_actions_aggregat.Package.{UuidPackage, ReadsBack}
use network_actions_aggregat.Aggregator.{
  Config, Aggregator, DirtyPeriod, new, mark_dirty, add_to_buffer, is_duplicate, is_late_event,
  mark_processed, process_event, try_send, period_of,
}
use network_actions_aggregat.Aggregator.Dedup.{
  Timed, process_all, Remembers, Remembers-process_event, Remembers-is_duplicate, new-Remembers,
  process_event-duplicate,
}

-- The day and the month of each first delivery that is handled more than the threshold after its event's
-- start, in order, apart from the ids seen before.
unfoldable pub late_periods : ℕ → List Uuid → List Timed → List DirtyPeriod
late_periods threshold ids [] = []
late_periods threshold ids ((marked, seen, e) ∷ xs) =
    let again = late_periods threshold ids xs in
    let rest = late_periods threshold (e.event_id ∷ ids) xs in
    let period : DirtyPeriod = record {
      day = some (truncate_day e.started_at);
      month = some (month_start e.started_at);
    } in
    if contains ids e.event_id
    then again
    else if ltb (e.started_at.nanos + threshold) seen.nanos
    then period ∷ rest
    else rest

module _ {A : Type 0} where
  take-all : (n : ℕ) (q : List A) → length q ≤ n → take n q ≡ q
  take-all zero [] h = refl
  take-all zero (x ∷ q) h = absurd (omega (arith, h))
  take-all (suc n) [] h = refl
  take-all (suc n) (x ∷ q) h = ap (◌∷◌ x) (take-all n q (omega (arith, h)))

  -- What comes after the first elements does not matter.
  take-append_full : (n : ℕ) (q a b : List A) → n ≤ length q → take n (q ++ a) ≡ take n (q ++ b)
  take-append_full zero q a b h = refl
  take-append_full (suc n) [] a b h = absurd (omega (arith, h))
  take-append_full (suc n) (x ∷ q) a b h = ap (◌∷◌ x) (take-append_full n q a b (omega (arith, h)))

take-try_send :
    (n : ℕ) (p : DirtyPeriod) (q rest : List DirtyPeriod)
    → take n (try_send n p q ++ rest) ≡ take n (q ++ p ∷ rest)
unfolding try_send
take-try_send n p q rest = elim (Bool-cases (ltb (length q) n)) [
  | inl room ↦ rw room (ap (take n) (append_assoc q (p ∷ []) rest))
  | inr full ↦ rw full (take-append_full n q rest (p ∷ rest) (ground arith))
]

length-try_send :
    (n : ℕ) (p : DirtyPeriod) (q : List DirtyPeriod) → length q ≤ n → length (try_send n p q) ≤ n
unfolding try_send
length-try_send n p q h = ground (arith, length-append q (p ∷ []))

-- The channel of a use case with what it is compared by.
record HasRoom (n threshold : ℕ) (uc : Aggregator) : Type 0 where
  size : uc.channel_size ≡ n
  limit : uc.config.late_event_threshold ≡ threshold
  bounded : length uc.dirty_periods ≤ n

module _ (uuid : UuidPackage) (marked seen : Time) (uc : Aggregator) (e : Event)
    (fresh : is_duplicate uuid uc e ≡ false) (n threshold : ℕ) (h : HasRoom n threshold uc) where
  process_event-periods : (process_event uuid marked seen uc e).dirty_periods ≡ (
      if ltb (e.started_at.nanos + threshold) seen.nanos
      then try_send n (period_of e) uc.dirty_periods
      else uc.dirty_periods)
  unfolding process_event mark_processed mark_dirty add_to_buffer is_late_event
  process_event-periods = ground (arith, fresh, h.size, h.limit)

  process_event-HasRoom : HasRoom n threshold (process_event uuid marked seen uc e)
  unfolding process_event mark_processed mark_dirty add_to_buffer
  process_event-HasRoom = record {
    size = ground (arith, h.size);
    limit = ground (arith, h.limit);
    bounded =
        subst (λ q. length q ≤ n) (sym process_event-periods)
          (ground (arith, h.bounded, length-try_send n (period_of e) uc.dirty_periods h.bounded));
  }

module _ (uuid : UuidPackage) (r : ReadsBack uuid) (n threshold : ℕ) where
  -- One more period at the end of the channel, if the event was late.
  take-if :
      (late : Bool) (p : DirtyPeriod) (q q' rest : List DirtyPeriod)
      → q' ≡ (if late then try_send n p q else q)
      → take n (q' ++ rest) ≡ take n (q ++ (if late then p ∷ rest else rest))
  take-if true p q q' rest h = ap (λ l. take n (l ++ rest)) h ∙ take-try_send n p q rest
  take-if false p q q' rest h = ap (λ l. take n (l ++ rest)) h

  process_all-periods :
      (xs : List Timed) (ids : List Uuid) (uc : Aggregator)
      → Remembers uuid ids uc
      → HasRoom n threshold uc
      → (process_all uuid xs uc).dirty_periods
        ≡ take n (uc.dirty_periods ++ late_periods threshold ids xs)
  unfolding process_all late_periods period_of
  process_all-periods [] ids uc m h =
      sym (ap (take n) (append-nil uc.dirty_periods) ∙ take-all n uc.dirty_periods h.bounded)
  process_all-periods ((marked, seen, e) ∷ xs) ids uc m h =
      elim (Bool-cases (is_duplicate uuid uc e)) [
        | inl dup ↦ rw (Remembers-is_duplicate uuid ids uc e m ∙ dup) (
            ap (λ u. (process_all uuid xs u).dirty_periods)
              (process_event-duplicate uuid marked seen uc e dup)
            ∙ process_all-periods xs ids uc m h)
        | inr fresh ↦
            let uc' = process_event uuid marked seen uc e in
            let late = ltb (e.started_at.nanos + threshold) seen.nanos in
            rw (Remembers-is_duplicate uuid ids uc e m ∙ fresh) (
              process_all-periods xs (e.event_id ∷ ids) uc'
                (Remembers-process_event uuid r marked seen uc e ids fresh m)
                (process_event-HasRoom uuid marked seen uc e fresh n threshold h)
              ∙ take-if late (period_of e) uc.dirty_periods uc'.dirty_periods
                  (late_periods threshold (e.event_id ∷ ids) xs)
                  (process_event-periods uuid marked seen uc e fresh n threshold h))
      ]

new-HasRoom :
    (config : Config) → HasRoom (new config).channel_size config.late_event_threshold (new config)
unfolding new
new-HasRoom config = record { size = refl; limit = refl; bounded = omega arith }

-- After any stream of deliveries to a new use case, with no period received yet, the channel holds, in
-- order, the day and the month of each first delivery of an event id that was handled more than the
-- threshold after its event's start, up to the capacity of the channel: what does not fit is dropped. The
-- capacity is the configured size, or 1000 if that is 0. The id's text must be readable back.
pub process_all-dirty :
    (uuid : UuidPackage)
    → ReadsBack uuid
    → (config : Config) (xs : List Timed)
    → (process_all uuid xs (new config)).dirty_periods
      ≡ take
          (if config.dirty_period_channel_size == 0 then 1000 else config.dirty_period_channel_size)
          (late_periods config.late_event_threshold [] xs)
unfolding new
process_all-dirty uuid r config xs =
    process_all-periods uuid r (new config).channel_size config.late_event_threshold xs []
      (new config) (new-Remembers uuid config) (new-HasRoom config)
    ∙ ap (λ n. take n (late_periods config.late_event_threshold [] xs))
        (capacity config.dirty_period_channel_size)
  where
    capacity : (n : ℕ) → (if leb n 0 then 1000 else n) ≡ (if n == 0 then 1000 else n)
    capacity n = ground arith
