-- ===== src/Verifier/Expected.antt =====
-- `calculateExpectedAggregations` against the sums of the events and against the buffers.
use network_actions_aggregat.Prelude.{
  ◌≡◌, refl, sym, ap, ◌∙◌, Bool, true, false, ◌&&◌, Bool-cases, inl, inr, List, [], ◌∷◌, ◌==◌,
  list_beq_iff, string_eq, list_eq, nat_eq, foldl, select, if◌then◌else◌,
}
use text.Mathlib.TextEquality.{eq_iff}
use network_actions_aggregat.Dict.{lookup, insert, lookup-insert}
use network_actions_aggregat.Clock.Text.{Text}
use network_actions_aggregat.Entity.{Event, EventType}
use network_actions_aggregat.Aggregation.{Totals, no_totals, update_agg_data}
use network_actions_aggregat.Aggregation.Sums.{
  contribution, plus, wrap, sum_of, update_agg_data-wrap, plus_assoc, plus_zero, zero_plus,
}
use network_actions_aggregat.Buffer.{add_day, add_month, totals_at, totals_of}
use network_actions_aggregat.Buffer.Streams.{
  is_at, event_day, event_month, totals_at-add_days, totals_at-add_months,
}
use network_actions_aggregat.Verifier.{
  TypeMap, AggMap, map_or_new, data_or_new, expect, expect_all, calculate_expected_aggregations,
}

-- What a map of expected sums holds for a key and a type.
abbrev pub expected_at : Text → EventType → AggMap → Totals
expected_at k ty m = data_or_new (lookup ty (map_or_new (lookup k m)))

module _ (k : Text) (ty : EventType) where
  expected_types :
      (e : Event) (types : TypeMap)
      → data_or_new (
          lookup ty (
            insert e.event_type
              (update_agg_data (data_or_new (lookup e.event_type types)) e)
              types))
        ≡ (if e.event_type == ty
            then update_agg_data (data_or_new (lookup ty types)) e
            else data_or_new (lookup ty types))
  expected_types e types = elim (Bool-cases (e.event_type == ty)) [
    | inl same ↦
        rw (lookup-insert, same)
          (ap (λ u. update_agg_data (data_or_new (lookup u types)) e)
            ((eq_iff e.event_type ty).0 same))
    | inr other ↦ rw (lookup-insert, other)
  ]

  expected_at-expect :
      (key : Text) (e : Event) (m : AggMap)
      → expected_at k ty (expect key e m) ≡ (
          if (key == k) && (e.event_type == ty)
          then update_agg_data (expected_at k ty m) e
          else expected_at k ty m)
  unfolding expect
  expected_at-expect key e m = elim (Bool-cases (key == k)) [
    | inl same ↦
        let e' : key ≡ k = (list_beq_iff key k).0 same in
        rw (lookup-insert, same, e') (expected_types e (map_or_new (lookup k m)))
    | inr other ↦ rw (lookup-insert, other)
  ]

  expected_at-step :
      (key_of : Event → Text) (m : AggMap) (a : Totals) (e : Event) (t : Bool)
      → is_at key_of k ty e ≡ t
      → expected_at k ty m ≡ wrap a
      → expected_at k ty (expect (key_of e) e m) ≡ wrap (if t then plus a (contribution e) else a)
  expected_at-step key_of m a e true is h =
      expected_at-expect (key_of e) e m
      ∙ rw is (ap (λ t. update_agg_data t e) h ∙ update_agg_data-wrap a e)
  expected_at-step key_of m a e false is h = expected_at-expect (key_of e) e m ∙ rw is h

  -- The sums of the events of a key, on top of others.
  counted : (Event → Text) → Totals → List Event → Totals
  counted key_of a es = plus a (sum_of (select (is_at key_of k ty) es))

  counted-cons :
      (key_of : Event → Text) (a : Totals) (e : Event) (es : List Event)
      → wrap (counted key_of (if is_at key_of k ty e then plus a (contribution e) else a) es)
        ≡ wrap (counted key_of a (e ∷ es))
  unfolding counted sum_of
  counted-cons key_of a e es = elim (Bool-cases (is_at key_of k ty e)) [
    | inl here ↦ rw here (ap wrap (plus_assoc a (contribution e) _))
    | inr there ↦ rw there refl
  ]

  expect_all-counted :
      (es : List Event) (days months : AggMap) (a b : Totals)
      → expected_at k ty days ≡ wrap a
      → expected_at k ty months ≡ wrap b
      → (expected_at k ty (expect_all es (days, months)).0 ≡ wrap (counted event_day a es))
        × (expected_at k ty (expect_all es (days, months)).1 ≡ wrap (counted event_month b es))
  unfolding expect_all counted sum_of
  expect_all-counted [] days months a b h g =
      (h ∙ ap wrap (sym (plus_zero a)), g ∙ ap wrap (sym (plus_zero b)))
  expect_all-counted (e ∷ es) days months a b h g =
      let r =
        expect_all-counted es _ _ _ _ (expected_at-step event_day days a e _ refl h)
          (expected_at-step event_month months b e _ refl g) in
      (r.0 ∙ counted-cons event_day a e es, r.1 ∙ counted-cons event_month b e es)

  -- The expected aggregates of a list of events are, for each key and type, the sums of its events
  -- modulo 2^64, and these are what the buffers of the aggregator hold after the same events.
  pub calculate_expected_aggregations-totals :
      (es : List Event)
      → let m = calculate_expected_aggregations es in
        (expected_at k ty m.0 ≡ wrap (sum_of (select (is_at event_day k ty) es)))
        × (expected_at k ty m.1 ≡ wrap (sum_of (select (is_at event_month k ty) es)))
        × (expected_at k ty m.0 ≡ totals_at k ty (foldl add_day [] es))
        × (expected_at k ty m.1 ≡ totals_at k ty (foldl add_month [] es))
  unfolding calculate_expected_aggregations counted lookup totals_of
  calculate_expected_aggregations-totals es =
      let r = expect_all-counted es [] [] no_totals no_totals refl refl in
      let d = totals_at-add_days k ty es [] no_totals refl in
      let m = totals_at-add_months k ty es [] no_totals refl in
      (
        r.0 ∙ ap wrap (zero_plus (sum_of (select (is_at event_day k ty) es))),
        r.1 ∙ ap wrap (zero_plus (sum_of (select (is_at event_month k ty) es))),
        r.0 ∙ sym d,
        r.1 ∙ sym m,
      )
