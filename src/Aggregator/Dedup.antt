-- ===== src/Aggregator/Dedup.antt =====
-- Duplicate events: `isDuplicate`, `markProcessed` and the loop of `processEvents` between two cleanups.
use network_actions_aggregat.Prelude.{
  contains, ◌≡◌, refl, ap, sym, ◌∙◌, true, false, Bool-cases, inl, inr, List, [], ◌∷◌, foldl,
  select, map, arith, nat_beq, ◌==◌, string_eq, if◌then◌else◌,
}
use text.Mathlib.TextEquality.{eq_iff}
use network_actions_aggregat.Dict.{lookup, lookup-insert}
use network_actions_aggregat.Clock.{Time}
use network_actions_aggregat.Clock.Text.{Text}
use network_actions_aggregat.Entity.{Event, EventType, Uuid}
use network_actions_aggregat.Aggregation.Sums.{wrap, sum_of, zero_plus}
use network_actions_aggregat.Aggregation.{no_totals}
use network_actions_aggregat.Buffer.{add_day, add_month, totals_at, totals_of}
use network_actions_aggregat.Buffer.Streams.{
  is_at, event_day, event_month, totals_at-add_days, totals_at-add_months,
}
use network_actions_aggregat.Package.{UuidPackage, ReadsBack}
use network_actions_aggregat.Aggregator.{
  Config, Aggregator, new, mark_dirty, add_to_buffer, is_some, is_duplicate, mark_processed,
  process_event,
}

-- The first event of each id, in order of arrival, apart from the ids seen before.
unfoldable pub first_seen : List Uuid → List Event → List Event
first_seen seen [] = []
first_seen seen (e ∷ es) =
    let later = first_seen seen es in
    let rest = e ∷ first_seen (e.event_id ∷ seen) es in
    if contains seen e.event_id then later else rest

-- An event with the two clock readings of its handling.
abbrev pub Timed : Type 0
Timed = Time × Time × Event

unfoldable pub process_all : UuidPackage → List Timed → Aggregator → Aggregator
process_all uuid [] uc = uc
process_all uuid ((marked, seen, e) ∷ rest) uc =
    process_all uuid rest (process_event uuid marked seen uc e)

abbrev pub events_of : List Timed → List Event
events_of = map (λ x. x.2)

module _ (uuid : UuidPackage) (marked seen : Time) (uc : Aggregator) (e : Event) where
  -- A duplicate changes nothing.
  pub process_event-duplicate :
      is_duplicate uuid uc e ≡ true → process_event uuid marked seen uc e ≡ uc
  unfolding process_event
  process_event-duplicate d = rw d

  pub process_event-day :
      (process_event uuid marked seen uc e).day_buffer
      ≡ (if is_duplicate uuid uc e then uc.day_buffer else add_day uc.day_buffer e)
  unfolding process_event mark_processed mark_dirty add_to_buffer
  process_event-day = ground arith

  pub process_event-month :
      (process_event uuid marked seen uc e).month_buffer
      ≡ (if is_duplicate uuid uc e then uc.month_buffer else add_month uc.month_buffer e)
  unfolding process_event mark_processed mark_dirty add_to_buffer
  process_event-month = ground arith

  process_event-processed : (process_event uuid marked seen uc e).processed_events ≡ (
      if is_duplicate uuid uc e
      then uc.processed_events
      else (mark_processed uuid marked uc e).processed_events)
  unfolding process_event mark_processed mark_dirty add_to_buffer
  process_event-processed = ground arith

string-injective :
    (uuid : UuidPackage) → ReadsBack uuid → (a b : Uuid) → uuid.string a ≡ uuid.string b → a ≡ b
string-injective uuid r a b h = cc (r a, r b, h)

string-beq :
    (uuid : UuidPackage)
    → ReadsBack uuid
    → (a b : Uuid) → (uuid.string a == uuid.string b) ≡ nat_beq a b
string-beq uuid r a b =
    ground (arith, eq_iff (uuid.string a) (uuid.string b), string-injective uuid r a b)

-- The ids of the processed events are those of a list.
unfoldable pub Remembers : UuidPackage → List Uuid → Aggregator → Type 0
Remembers uuid ids uc =
    (id : Uuid) → is_some (lookup (uuid.string id) uc.processed_events) ≡ contains ids id

module _ (uuid : UuidPackage) (r : ReadsBack uuid) (marked seen : Time) (uc : Aggregator)
    (e : Event) where
  pub Remembers-process_event :
      (ids : List Uuid)
      → is_duplicate uuid uc e ≡ false
      → Remembers uuid ids uc
      → Remembers uuid (e.event_id ∷ ids) (process_event uuid marked seen uc e)
  unfolding Remembers mark_processed
  Remembers-process_event ids d h id =
      rw
        (
          process_event-processed uuid marked seen uc e,
          d,
          lookup-insert,
          string-beq uuid r e.event_id id,
        )
        (ground (arith, h id))

pub Remembers-is_duplicate :
    (uuid : UuidPackage) (ids : List Uuid) (uc : Aggregator) (e : Event)
    → Remembers uuid ids uc
    → contains ids e.event_id ≡ is_duplicate uuid uc e
unfolding Remembers is_duplicate
Remembers-is_duplicate uuid ids uc e h = sym (h e.event_id)

module _ (uuid : UuidPackage) (r : ReadsBack uuid) where
  -- The buffers after a stream, from any state: those of the first event of each new id.
  pub buffers-process_all :
      (xs : List Timed) (ids : List Uuid) (uc : Aggregator)
      → Remembers uuid ids uc
      → ((process_all uuid xs uc).day_buffer
          ≡ foldl add_day uc.day_buffer (first_seen ids (events_of xs)))
        × ((process_all uuid xs uc).month_buffer
            ≡ foldl add_month uc.month_buffer (first_seen ids (events_of xs)))
  unfolding process_all first_seen
  buffers-process_all [] ids uc h = (refl, refl)
  buffers-process_all ((m, s, e) ∷ xs) ids uc h = elim (Bool-cases (is_duplicate uuid uc e)) [
    | inl dup ↦
        let ih = buffers-process_all xs ids uc h in
        let same = process_event-duplicate uuid m s uc e dup in
        rw (Remembers-is_duplicate uuid ids uc e h ∙ dup) (
          ap (λ u. (process_all uuid xs u).day_buffer) same ∙ ih.0,
          ap (λ u. (process_all uuid xs u).month_buffer) same ∙ ih.1,
        )
    | inr fresh ↦
        let uc' = process_event uuid m s uc e in
        let ih =
          buffers-process_all xs (e.event_id ∷ ids) uc'
            (Remembers-process_event uuid r m s uc e ids fresh h) in
        let day : uc'.day_buffer ≡ add_day uc.day_buffer e =
          process_event-day uuid m s uc e ∙ rw fresh in
        let month : uc'.month_buffer ≡ add_month uc.month_buffer e =
          process_event-month uuid m s uc e ∙ rw fresh in
        rw (Remembers-is_duplicate uuid ids uc e h ∙ fresh) (
          ih.0 ∙ ap (λ b. foldl add_day b (first_seen (e.event_id ∷ ids) (events_of xs))) day,
          ih.1 ∙ ap (λ b. foldl add_month b (first_seen (e.event_id ∷ ids) (events_of xs))) month,
        )
  ]

pub new-Remembers : (uuid : UuidPackage) (config : Config) → Remembers uuid [] (new config)
unfolding Remembers new lookup
new-Remembers uuid config id = refl

pub new-totals : (k : Text) (ty : EventType) → totals_at k ty [] ≡ no_totals
unfolding lookup totals_of
new-totals k ty = refl

-- However often an event is delivered, the sums count it once: after any stream of deliveries to a new
-- aggregator, the day and the month buffer hold for each key and type the sums, modulo 2^64, of the
-- first event of each id. The id's text must be readable back.
pub totals-process_all :
    (uuid : UuidPackage)
    → ReadsBack uuid
    → (config : Config) (xs : List Timed) (k : Text) (ty : EventType)
    → (totals_at k ty (process_all uuid xs (new config)).day_buffer
        ≡ wrap (sum_of (select (is_at event_day k ty) (first_seen [] (events_of xs)))))
      × (totals_at k ty (process_all uuid xs (new config)).month_buffer
          ≡ wrap (sum_of (select (is_at event_month k ty) (first_seen [] (events_of xs)))))
unfolding new
totals-process_all uuid r config xs k ty =
    let es = first_seen [] (events_of xs) in
    let b = buffers-process_all uuid r xs [] (new config) (new-Remembers uuid config) in
    (
      ap (totals_at k ty) b.0
          ∙ (totals_at-add_days k ty es [] no_totals (new-totals k ty)
              ∙ ap wrap (zero_plus (sum_of (select (is_at event_day k ty) es)))),
      ap (totals_at k ty) b.1
          ∙ (totals_at-add_months k ty es [] no_totals (new-totals k ty)
              ∙ ap wrap (zero_plus (sum_of (select (is_at event_month k ty) es)))),
    )
