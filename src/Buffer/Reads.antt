-- ===== src/Buffer/Reads.antt =====
-- What an added event changes in a buffer.
use network_actions_aggregat.Prelude.{
  ◌≡◌, refl, ◌&&◌, Option, none, some, Bool-cases, inl, inr, ap, ◌∙◌, list_beq_iff, ◌==◌, string_eq,
  list_eq, nat_eq, if◌then◌else◌,
}
use text.Mathlib.TextEquality.{eq_iff}
use network_actions_aggregat.Dict.{lookup, lookup-insert}
use network_actions_aggregat.Clock.{Time}
use network_actions_aggregat.Clock.Text.{Text}
use network_actions_aggregat.Entity.{Event, EventType}
use network_actions_aggregat.Aggregation.{update_agg_data}
use network_actions_aggregat.Buffer.{
  Aggregate, Types, Buffer, types_or_new, aggregate_or_new, accumulate, add_event, totals_of,
  totals_at,
}

totals-aggregate_or_new :
    (p : Time) (ty : EventType) (o : Option Aggregate)
    → (aggregate_or_new p ty o).totals ≡ totals_of o
unfolding totals_of
totals-aggregate_or_new p ty none = refl
totals-aggregate_or_new p ty (some a) = refl

pub totals-accumulate :
    (p : Time) (e : Event) (ty : EventType) (types : Types)
    → totals_of (lookup ty (accumulate p e types)) ≡ (
        if e.event_type == ty
        then update_agg_data (totals_of (lookup ty types)) e
        else totals_of (lookup ty types))
unfolding accumulate totals_of
totals-accumulate p e ty types = elim (Bool-cases (e.event_type == ty)) [
  | inl same ↦
      rw (lookup-insert, same, totals_of)
        (ap (λ t. update_agg_data t e)
          (totals-aggregate_or_new p e.event_type (lookup e.event_type types)
            ∙ ap (λ u. totals_of (lookup u types)) ((eq_iff e.event_type ty).0 same)))
  | inr other ↦ rw (lookup-insert, other)
]

pub totals_at-add_event :
    (key : Text) (p : Time) (e : Event) (k : Text) (ty : EventType) (b : Buffer)
    → totals_at k ty (add_event key p e b) ≡ (
        if (key == k) && (e.event_type == ty)
        then update_agg_data (totals_at k ty b) e
        else totals_at k ty b)
unfolding add_event
totals_at-add_event key p e k ty b = elim (Bool-cases (key == k)) [
  | inl same ↦
      let e' : key ≡ k = (list_beq_iff key k).0 same in
      rw (lookup-insert, same, e') (totals-accumulate p e ty (types_or_new (lookup k b)))
  | inr other ↦ rw (lookup-insert, other)
]
