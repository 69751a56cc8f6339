-- ===== src/Aggregator/System/Balance.antt =====
-- The account of one cell of a table of aggregates: what is stored, what loops still hold, what failed
-- loops gave up and what is in the buffer, against what came in.
use network_actions_aggregat.Prelude.{
  ◌≡◌, refl, sym, ap, ap₂, ◌∙◌, Bool, true, false, List, [], ◌∷◌, ◌++◌, foldl, select,
  select-append, if◌then◌else◌,
}
use network_actions_aggregat.Clock.{Time}
use network_actions_aggregat.Clock.Text.{Text}
use network_actions_aggregat.Entity.{Event, EventType}
use network_actions_aggregat.Aggregation.{Totals, no_totals}
use network_actions_aggregat.Aggregation.Sums.{
  plus, wrap, sum_of, sum_of-append, plus_assoc, plus_zero, plus_comm, plus_left_comm, wrap-plus,
  plus-wrap,
}
use network_actions_aggregat.Buffer.{Aggregate, Buffer}
use network_actions_aggregat.Aggregator.Upserts.{sum_at}
use network_actions_aggregat.Aggregator.System.{Loop, counted}

-- The two sides of an account.
abbrev pub assets : Totals → Totals → Totals → Totals → Totals
assets cell held lost buffered = wrap (plus cell (plus held (plus lost buffered)))

abbrev pub income : Totals → Totals → Totals → Totals
income cell taken recounted = wrap (plus cell (plus taken recounted))

-- An upsert moves an aggregate from its loop into the cell.
pub assets-stored :
    (c c' x p p' l b : Totals)
    → c' ≡ wrap (plus c x)
    → p ≡ plus x p'
    → assets c' p' l b ≡ assets c p l b
assets-stored c c' x p p' l b hc hp =
    ap (λ d. assets d p' l b) hc
    ∙ (wrap-plus (plus c x) (plus p' (plus l b))
        ∙ (ap wrap
              (plus_assoc c x (plus p' (plus l b)) ∙ ap (plus c) (sym (plus_assoc x p' (plus l b))))
            ∙ ap (λ q. assets c q l b) (sym hp)))

-- A loop that fails gives up what it holds.
pub assets-lost :
    (c c' x p p' l l' b : Totals)
    → c' ≡ c
    → p ≡ plus x p'
    → l' ≡ plus x l
    → assets c' p' l' b ≡ assets c p l b
assets-lost c c' x p p' l l' b hc hp hl =
    ap₂ (λ d m. assets d p' m b) hc hl
    ∙ (ap (λ t. wrap (plus c t))
          (ap (plus p') (plus_assoc x l b)
            ∙ (plus_left_comm p' x (plus l b) ∙ sym (plus_assoc x p' (plus l b))))
        ∙ ap (λ q. assets c q l b) (sym hp))

-- A swap moves the buffer into a loop.
pub assets-swapped :
    (c y p l b : Totals) → wrap b ≡ wrap y → assets c (plus y p) l no_totals ≡ assets c p l b
assets-swapped c y p l b h =
    ap wrap (
      ap (plus c) (ap (plus (plus y p)) (plus_zero l) ∙ (plus_assoc y p l ∙ plus_comm y (plus p l)))
      ∙ sym (plus_assoc c (plus p l) y))
    ∙ (sym (plus-wrap (plus c (plus p l)) y)
        ∙ (ap (λ t. wrap (plus (plus c (plus p l)) t)) (sym h)
            ∙ (plus-wrap (plus c (plus p l)) b
                ∙ ap wrap (plus_assoc c (plus p l) b ∙ ap (plus c) (plus_assoc p l b)))))

last_in : (c d x : Totals) → wrap (plus c (plus d x)) ≡ wrap (plus (wrap (plus c d)) x)
last_in c d x = ap wrap (sym (plus_assoc c d x)) ∙ sym (wrap-plus (plus c d) x)

-- An event that is counted comes in and is in the buffer.
pub balance-taken :
    (c p l b c0 t r x : Totals)
    → assets c p l b ≡ income c0 t r
    → assets c p l (plus b x) ≡ income c0 (plus t x) r
balance-taken c p l b c0 t r x h =
    ap (λ y. wrap (plus c y))
      (sym (plus_assoc p l (plus b x))
        ∙ (sym (plus_assoc (plus p l) b x) ∙ ap (λ y. plus y x) (plus_assoc p l b)))
    ∙ (last_in c (plus p (plus l b)) x
        ∙ (ap (λ y. wrap (plus y x)) h
            ∙ (sym (last_in c0 (plus t r) x)
                ∙ ap (λ y. wrap (plus c0 y))
                    (plus_assoc t r x ∙ (ap (plus t) (plus_comm r x) ∙ sym (plus_assoc t x r))))))

-- A recount comes in and is held by a loop.
pub balance-recounted :
    (c p l b c0 t r x : Totals)
    → assets c p l b ≡ income c0 t r
    → assets c (plus x p) l b ≡ income c0 t (plus x r)
balance-recounted c p l b c0 t r x h =
    ap (λ y. wrap (plus c y)) (plus_assoc x p (plus l b) ∙ plus_comm x (plus p (plus l b)))
    ∙ (last_in c (plus p (plus l b)) x
        ∙ (ap (λ y. wrap (plus y x)) h
            ∙ (sym (last_in c0 (plus t r) x)
                ∙ ap (λ y. wrap (plus c0 y)) (plus_assoc t r x ∙ ap (plus t) (plus_comm r x)))))

-- What the loops hold for a cell.
module _ (column : Time → Text) (k : Text) (ty : EventType) (part : Loop → List Aggregate) where
  abbrev pub held : List Loop → Totals
  held [] = no_totals
  held (l ∷ ls) = plus (sum_at column k ty (part l)) (held ls)

  pub held_middle :
      (before : List Loop) (l : Loop) (after : List Loop)
      → held (before ++ l ∷ after) ≡ plus (sum_at column k ty (part l)) (held (before ++ after))
  held_middle [] l after = refl
  held_middle (m ∷ before) l after =
      ap (plus (sum_at column k ty (part m))) (held_middle before l after)
      ∙ plus_left_comm (sum_at column k ty (part m)) (sum_at column k ty (part l))
          (held (before ++ after))

-- The sums over the events that were counted.
pub sum_counted :
    (p : Event → Bool) (d : Bool) (e : Event) (es : List Event)
    → sum_of (select p (counted d e es))
      ≡ plus (sum_of (select p es)) (sum_of (select p (counted d e [])))
unfolding sum_of
sum_counted p true e es = sym (plus_zero _)
sum_counted p false e es =
    ap sum_of (select-append p es (e ∷ [])) ∙ sum_of-append (select p es) (select p (e ∷ []))

pub foldl-counted :
    (add : Buffer → Event → Buffer) (d : Bool) (e : Event) (es : List Event) (b : Buffer)
    → foldl add b (counted d e es) ≡ (if d then foldl add b es else add (foldl add b es) e)
foldl-counted add true e es b = refl
foldl-counted add false e [] b = refl
foldl-counted add false e (x ∷ es) b = foldl-counted add false e es (add b x)
