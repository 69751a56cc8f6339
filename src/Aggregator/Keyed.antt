-- ===== src/Aggregator/Keyed.antt =====
-- The aggregates of a buffer, in any order, against what the buffer holds for each key and type.
use mathlib.Core.List.{Perm, Permᴰ}
use mathlib.Core.Logic.{∥∥₁_elim}
use text.Mathlib.TextEquality.{eq_iff}
use network_actions_aggregat.Prelude.{
  ◌≡◌, refl, ap, sym, ◌∙◌, true, false, Bool-cases, inl, inr, Option, none, some, List, [], ◌∷◌,
  ◌++◌, arith, map, ◌==◌, string_eq, list_eq, nat_eq, list_beq_iff, All, ap₂,
}
use network_actions_aggregat.Dict.{lookup, Distinct, insert-Distinct, insert-All, lookup-All}
use network_actions_aggregat.Clock.{Time}
use network_actions_aggregat.Clock.Text.{Text}
use network_actions_aggregat.Entity.{Event, EventType}
use network_actions_aggregat.Aggregation.{no_totals}
use network_actions_aggregat.Aggregation.Sums.{
  Totals-set, plus, plus_assoc, plus_left_comm, plus_zero, zero_plus,
}
use network_actions_aggregat.Buffer.{
  Aggregate, Types, Buffer, types_or_new, aggregate_or_new, accumulate, add_event, aggregates,
  totals_of, totals_at,
}
use network_actions_aggregat.Buffer.Dates.{Separates}
use network_actions_aggregat.Aggregator.Upserts.{share, sum_at}

module _ (column : Time → Text) (k : Text) (ty : EventType) where
  pub sum_at-append :
      (xs ys : List Aggregate)
      → sum_at column k ty (xs ++ ys) ≡ plus (sum_at column k ty xs) (sum_at column k ty ys)
  unfolding sum_at
  sum_at-append [] ys = sym (zero_plus _)
  sum_at-append (x ∷ xs) ys =
      ap (plus (share column k ty x)) (sum_at-append xs ys) ∙ sym (plus_assoc _ _ _)

  sum_at-Permᴰ :
      {xs ys : List Aggregate} → Permᴰ xs ys → sum_at column k ty xs ≡ sum_at column k ty ys
  unfolding sum_at
  sum_at-Permᴰ Permᴰ.nil = refl
  sum_at-Permᴰ (Permᴰ.cons e p) = ap₂ plus (ap (share column k ty) e) (sum_at-Permᴰ p)
  sum_at-Permᴰ (Permᴰ.swap {l = l} e f) =
      ap₂ (λ x y. plus (share column k ty x) (plus (share column k ty y) (sum_at column k ty l))) e
        f
      ∙ plus_left_comm _ _ _
  sum_at-Permᴰ (Permᴰ.trans p q) = sum_at-Permᴰ p ∙ sum_at-Permᴰ q

  -- The sums do not depend on the order.
  pub sum_at-Perm :
      {xs ys : List Aggregate} → Perm xs ys → sum_at column k ty xs ≡ sum_at column k ty ys
  sum_at-Perm p = ∥∥₁_elim p (Totals-set _ _) sum_at-Permᴰ

module _ (column : Time → Text) (f : Text → Text) where
  -- The aggregates of a key are stored under its date, each under its own type.
  abbrev pub KeyedTypes : Text → Types → Type 0
  KeyedTypes j types =
      All (λ (p : EventType × Aggregate). (column p.1.period ≡ f j) × (p.1.event_type ≡ p.0)) types
      × Distinct types

  abbrev pub KeyedEntries : Buffer → Type 0
  KeyedEntries b = All (λ (q : Text × Types). KeyedTypes q.0 q.1) b

  module _ (apart : Separates f) (k : Text) (ty : EventType) where
    pub sum_at-other :
        (j : Text) (types : Types)
        → (j == k) ≡ false
        → KeyedTypes j types
        → sum_at column (f k) ty (map (λ p. p.1) types) ≡ no_totals
    unfolding sum_at
    sum_at-other j [] h v = refl
    sum_at-other j ((t, a) ∷ types) h v =
        let s : (column a.period == f k) ≡ false = ap (λ c. c == f k) v.0.0.0 ∙ (apart j k ∙ h) in
        rw s (zero_plus _ ∙ sum_at-other j types h (v.0.1, v.1.1))

    pub sum_at-types :
        (j : Text) (types : Types)
        → (j == k) ≡ true
        → KeyedTypes j types
        → sum_at column (f k) ty (map (λ p. p.1) types) ≡ totals_of (lookup ty types)
    unfolding sum_at totals_of lookup
    sum_at-types j [] h v = refl
    sum_at-types j ((t, a) ∷ types) h v =
        let s : (column a.period == f k) ≡ true = ap (λ c. c == f k) v.0.0.0 ∙ (apart j k ∙ h) in
        let u : (a.event_type == ty) ≡ (t == ty) = ap (λ c. c == ty) v.0.0.1 in
        let ih = sum_at-types j types h (v.0.1, v.1.1) in
        elim (Bool-cases (t == ty)) [
          | inl same ↦
              let missing : lookup ty types ≡ none =
                ap (λ c. lookup c types) (sym ((eq_iff t ty).0 same)) ∙ v.1.0 in
              rw (s, u, same) (ap (plus a.totals) (ih ∙ ap totals_of missing) ∙ plus_zero _)
          | inr other ↦ rw (s, u, other) (zero_plus _ ∙ ih)
        ]

    lookup-cons_none :
        (j : Text) (types : Types) (b : Buffer)
        → lookup k ((j, types) ∷ b) ≡ none
        → ((j == k) ≡ false) × (lookup k b ≡ none)
    unfolding lookup
    lookup-cons_none j types b h = ground arith

    sum_at-missing :
        (b : Buffer)
        → lookup k b ≡ none
        → KeyedEntries b
        → sum_at column (f k) ty (aggregates b) ≡ no_totals
    unfolding aggregates sum_at
    sum_at-missing [] h v = refl
    sum_at-missing ((j, types) ∷ b) h v =
        let (other, rest) = lookup-cons_none j types b h in
        sum_at-append column (f k) ty (map (λ p. p.1) types) (aggregates b)
        ∙ (ap₂ plus (sum_at-other j types other v.0) (sum_at-missing b rest v.1)
            ∙ plus_zero no_totals)

    -- The aggregates of a buffer sum up, for the date of a key and a type, to what the buffer holds for them.
    pub sum_at-aggregates :
        (b : Buffer)
        → KeyedEntries b
        → Distinct b
        → sum_at column (f k) ty (aggregates b) ≡ totals_at k ty b
    unfolding aggregates lookup sum_at totals_of
    sum_at-aggregates [] v d = refl
    sum_at-aggregates ((j, types) ∷ b) v d =
        let append = sum_at-append column (f k) ty (map (λ p. p.1) types) (aggregates b) in
        elim (Bool-cases (j == k)) [
          | inl same ↦
              let missing : lookup k b ≡ none =
                ap (λ c. lookup c b) (sym ((list_beq_iff j k).0 same)) ∙ d.0 in
              rw same (
                append
                ∙ (ap₂ plus (sum_at-types j types same v.0) (sum_at-missing b missing v.1)
                    ∙ plus_zero _))
          | inr other ↦ rw other (
              append
              ∙ (ap₂ plus (sum_at-other j types other v.0) (sum_at-aggregates b v.1 d.1)
                  ∙ zero_plus _))
        ]

  -- What `add_event` keeps: keys and dates agree.
  pub record IsKeyed (b : Buffer) : Type 0 where
    pub entries : KeyedEntries b
    pub keys : Distinct b

  or_new-column :
      (j : Text) (p : Time) (t : EventType) (types : Types) (o : Option Aggregate)
      → lookup t types ≡ o
      → column p ≡ f j
      → KeyedTypes j types
      → (column (aggregate_or_new p t o).period ≡ f j) × ((aggregate_or_new p t o).event_type ≡ t)
  or_new-column j p t types none l c v = (c, refl)
  or_new-column j p t types (some a) l c v =
      lookup-All (λ (q : EventType × Aggregate). (column q.1.period ≡ f j) × (q.1.event_type ≡ q.0))
        t a types l v.0

  pub KeyedTypes-accumulate :
      (j : Text) (p : Time) (e : Event) (types : Types)
      → column p ≡ f j
      → KeyedTypes j types
      → KeyedTypes j (accumulate p e types)
  unfolding accumulate
  KeyedTypes-accumulate j p e types c v = (
    insert-All (λ (q : EventType × Aggregate). (column q.1.period ≡ f j) × (q.1.event_type ≡ q.0))
        e.event_type _ types (or_new-column j p e.event_type types _ refl c v) v.0,
    insert-Distinct e.event_type _ types v.1,
  )

  KeyedTypes-or_new :
      (j : Text) (b : Buffer) (o : Option Types)
      → lookup j b ≡ o
      → KeyedEntries b
      → KeyedTypes j (types_or_new o)
  KeyedTypes-or_new j b none l v = (tt, tt)
  KeyedTypes-or_new j b (some types) l v =
      lookup-All (λ (q : Text × Types). KeyedTypes q.0 q.1) j types b l v

  pub add_event-IsKeyed :
      (key : Text) (p : Time) (e : Event) (b : Buffer)
      → column p ≡ f key
      → IsKeyed b
      → IsKeyed (add_event key p e b)
  unfolding add_event
  add_event-IsKeyed key p e b c v = record {
    entries =
        insert-All (λ (q : Text × Types). KeyedTypes q.0 q.1) key _ b
          (KeyedTypes-accumulate key p e (types_or_new (lookup key b)) c
            (KeyedTypes-or_new key b _ refl v.entries))
          v.entries;
    keys = insert-Distinct key _ b v.keys;
  }
