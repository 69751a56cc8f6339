-- ===== src/Aggregator/Upserts.antt =====
-- The loops of upserts that the flush and the reconciliation share.
use network_actions_aggregat.Prelude.{
  ◌≡◌, refl, ap, sym, ◌∙◌, ◌&&◌, Bool-cases, inl, inr, Option, none, some, List, [], ◌∷◌, ◌++◌,
  String, ◌==◌, string_eq, list_eq, nat_eq, if◌then◌else◌,
}
use network_actions_aggregat.Clock.{Time}
use network_actions_aggregat.Clock.Text.{Text}
use network_actions_aggregat.Entity.{EventType}
use network_actions_aggregat.Entity.Errors.{Error}
use network_actions_aggregat.Aggregation.{Totals, no_totals}
use network_actions_aggregat.Aggregation.Sums.{plus, wrap, wrap-plus, plus_assoc, plus_zero}
use network_actions_aggregat.Buffer.{Aggregate}
use network_actions_aggregat.Repository.{Context, Upsert, Cells, added, IsUpsert}
use network_actions_aggregat.Aggregator.{and_then, upsert_all}

-- The sums of the aggregates that are stored under a date and a type.
abbrev pub share : (Time → Text) → Text → EventType → Aggregate → Totals
share column k ty a = if (column a.period == k) && (a.event_type == ty) then a.totals else no_totals

unfoldable pub sum_at : (Time → Text) → Text → EventType → List Aggregate → Totals
sum_at column k ty [] = no_totals
sum_at column k ty (a ∷ rest) = plus (share column k ty a) (sum_at column k ty rest)

pub added-share :
    (column : Time → Text) (cells : Cells) (k : Text) (ty : EventType) (a : Aggregate)
    → wrap (cells k ty) ≡ cells k ty
    → added cells (column a.period) a.event_type a.totals k ty
      ≡ wrap (plus (cells k ty) (share column k ty a))
added-share column cells k ty a h =
    elim (Bool-cases ((column a.period == k) && (a.event_type == ty))) [
      | inl here ↦ rw here
      | inr elsewhere ↦ rw elsewhere (sym h ∙ ap wrap (sym (plus_zero (cells k ty))))
    ]

regroup : (c c1 x y : Totals) → c1 ≡ wrap (plus c x) → wrap (plus c1 y) ≡ wrap (plus c (plus x y))
regroup c c1 x y h =
    ap (λ t. wrap (plus t y)) h ∙ (wrap-plus (plus c x) y ∙ ap wrap (plus_assoc c x y))

module _ {Db : Type 0} (upsert : Upsert Db) (column : Time → Text) (cells other : Db → Cells)
    (u : IsUpsert upsert column cells other) (text : String) (ctx : Context) (k : Text)
    (ty : EventType) where
  -- What a loop did with the aggregates: all of them were added to the cells, or those before one
  -- whose upsert failed.
  abbrev pub Outcome : List Aggregate → Db → Db × Option Error → Type 0
  Outcome items db (db', none) =
      (cells db' k ty ≡ wrap (plus (cells db k ty) (sum_at column k ty items)))
      × (other db' k ty ≡ other db k ty)
  Outcome items db (db', some e) =
      (stored : List Aggregate) × (failed : Aggregate) × (lost : List Aggregate) × (items
        ≡ stored ++ failed ∷ lost)
      × (cells db' k ty ≡ wrap (plus (cells db k ty) (sum_at column k ty stored)))
      × (other db' k ty ≡ other db k ty)

  -- A first aggregate that was added, before the rest.
  Outcome-cons :
      (a : Aggregate) (rest : List Aggregate) (db db1 : Db) (r : Db × Option Error)
      → cells db1 k ty ≡ wrap (plus (cells db k ty) (share column k ty a))
      → other db1 k ty ≡ other db k ty
      → Outcome rest db1 r
      → Outcome (a ∷ rest) db r
  unfolding sum_at
  Outcome-cons a rest db db1 (db', none) c o h = (h.0 ∙ regroup _ _ _ _ c, h.1 ∙ o)
  Outcome-cons a rest db db1 (db', some e) c o (stored, failed, lost, split, ch, oh) =
      (a ∷ stored, failed, lost, ap (◌∷◌ a) split, ch ∙ regroup _ _ _ _ c, oh ∙ o)

  Outcome-and_then :
      (a : Aggregate) (rest : List Aggregate) (db : Db) (r : Db × Option Error)
      (next : Db → Db × Option Error)
      → upsert ctx a.period a.event_type a.totals.count_events a.totals.sum_duration
          a.totals.sum_bytes_up a.totals.sum_bytes_down db
        ≡ r
      → ((db1 : Db) → Outcome rest db1 (next db1))
      → Outcome (a ∷ rest) db (and_then text r next)
  unfolding sum_at
  Outcome-and_then a rest db (db1, none) next e ih =
      let d = u.done ctx a.period a.event_type a.totals db db1 e k ty in
      Outcome-cons a rest db db1 (next db1)
        (d.0 ∙ added-share column (cells db) k ty a (u.in_range db k ty)) d.1 (ih db1)
  Outcome-and_then a rest db (db1, some x) next e ih =
      let d = u.failed ctx a.period a.event_type a.totals db db1 x e k ty in
      (
        [],
        a,
        rest,
        refl,
        d.0 ∙ (sym (u.in_range db k ty) ∙ ap wrap (sym (plus_zero (cells db k ty)))),
        d.1,
      )

  pub upsert_all-Outcome :
      (items : List Aggregate) (db : Db) → Outcome items db (upsert_all text upsert ctx items db)
  unfolding upsert_all sum_at
  upsert_all-Outcome [] db = (sym (u.in_range db k ty) ∙ ap wrap (sym (plus_zero _)), refl)
  upsert_all-Outcome (a ∷ rest) db =
      Outcome-and_then a rest db _ (λ db1. upsert_all text upsert ctx rest db1) refl
        (λ db1. upsert_all-Outcome rest db1)
