-- ===== src/Buffer/Streams.antt =====
-- A buffer after a stream of events, against the sums over the events of each period and type.
use network_actions_aggregat.Prelude.{
  ◌≡◌, Bool, true, false, sym, ◌&&◌, Bool-cases, inl, inr, ap, ◌∙◌, ◌==◌, string_eq, list_eq,
  nat_eq, List, [], ◌∷◌, foldl, select, if◌then◌else◌,
}
use network_actions_aggregat.Clock.{Time}
use network_actions_aggregat.Clock.Text.{Text}
use network_actions_aggregat.Entity.{Event, EventType}
use network_actions_aggregat.Aggregation.{Totals, update_agg_data}
use network_actions_aggregat.Aggregation.Sums.{
  contribution, plus, wrap, sum_of, update_agg_data-wrap, plus_assoc, plus_zero,
}
use network_actions_aggregat.Buffer.{
  Buffer, add_event, add_day, add_month, day_of, day_key, month_of, month_key, totals_at,
}
use network_actions_aggregat.Buffer.Reads.{totals_at-add_event}

-- The events that belong to a period key and a type.
abbrev pub is_at : (Event → Text) → Text → EventType → Event → Bool
is_at key_of k ty e = (key_of e == k) && (e.event_type == ty)

module _ (key_of : Event → Text) (period_of : Event → Time) (k : Text) (ty : EventType) where
  abbrev add : Buffer → Event → Buffer
  add b e = add_event (key_of e) (period_of e) e b

  totals_at-add :
      (b : Buffer) (a : Totals) (e : Event) (t : Bool)
      → is_at key_of k ty e ≡ t
      → totals_at k ty b ≡ wrap a
      → totals_at k ty (add b e) ≡ wrap (if t then plus a (contribution e) else a)
  totals_at-add b a e true is h =
      totals_at-add_event (key_of e) (period_of e) e k ty b
      ∙ rw is (ap (λ t. update_agg_data t e) h ∙ update_agg_data-wrap a e)
  totals_at-add b a e false is h = totals_at-add_event (key_of e) (period_of e) e k ty b ∙ rw is h

  totals_at-foldl :
      (es : List Event) (b : Buffer) (a : Totals)
      → totals_at k ty b ≡ wrap a
      → totals_at k ty (foldl add b es) ≡ wrap (plus a (sum_of (select (is_at key_of k ty) es)))
  unfolding sum_of
  totals_at-foldl [] b a h = h ∙ ap wrap (sym (plus_zero a))
  totals_at-foldl (e ∷ es) b a h = elim (Bool-cases (is_at key_of k ty e)) [
    | inl in_period ↦ rw in_period (
        totals_at-foldl es (add b e) _ (totals_at-add b a e _ in_period h)
        ∙ ap wrap (plus_assoc a (contribution e) _))
    | inr outside ↦ rw outside (totals_at-foldl es (add b e) a (totals_at-add b a e _ outside h))
  ]

-- The key of an event in the day buffer and in the month buffer.
abbrev pub event_day : Event → Text
event_day e = day_key (day_of e)

abbrev pub event_month : Event → Text
event_month e = month_key (month_of e)

pub totals_at-add_days :
    (k : Text) (ty : EventType) (es : List Event) (b : Buffer) (a : Totals)
    → totals_at k ty b ≡ wrap a
    → totals_at k ty (foldl add_day b es)
      ≡ wrap (plus a (sum_of (select (is_at event_day k ty) es)))
unfolding add_day
totals_at-add_days k ty es b a h = totals_at-foldl event_day day_of k ty es b a h

pub totals_at-add_months :
    (k : Text) (ty : EventType) (es : List Event) (b : Buffer) (a : Totals)
    → totals_at k ty b ≡ wrap a
    → totals_at k ty (foldl add_month b es)
      ≡ wrap (plus a (sum_of (select (is_at event_month k ty) es)))
unfolding add_month
totals_at-add_months k ty es b a h = totals_at-foldl event_month month_of k ty es b a h
