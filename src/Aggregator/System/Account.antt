-- ===== src/Aggregator/System/Account.antt =====
-- What the steps of the goroutines do to the account of a cell of one table, the days' or the months'.
use network_actions_aggregat.Prelude.{◌≡◌, sym, ap, ap₂, ◌∙◌, Bool, List, [], ◌∷◌, ◌++◌, select}
use network_actions_aggregat.Clock.{Time}
use network_actions_aggregat.Clock.Text.{Text}
use network_actions_aggregat.Entity.{Event, EventType}
use network_actions_aggregat.Aggregation.{Totals, no_totals}
use network_actions_aggregat.Aggregation.Sums.{plus, wrap, sum_of, plus_assoc, plus_zero, zero_plus}
use network_actions_aggregat.Buffer.{Aggregate}
use network_actions_aggregat.Buffer.Streams.{is_at}
use network_actions_aggregat.Aggregator.Upserts.{sum_at}
use network_actions_aggregat.Aggregator.Keyed.{sum_at-append}
use network_actions_aggregat.Aggregator.System.{Loop, counted}
use network_actions_aggregat.Aggregator.System.Balance.{
  assets, income, assets-stored, assets-lost, assets-swapped, balance-taken, balance-recounted,
  held, held_middle, sum_counted,
}

module _ (column : Time → Text) (key_of : Event → Text) (part : Loop → List Aggregate) (k : Text)
    (ty : EventType) (start : Totals) where
  abbrev at : List Aggregate → Totals
  at items = sum_at column k ty items

  abbrev made : List Event → Totals
  made es = sum_of (select (is_at key_of k ty) es)

  abbrev pub Account :
      Totals → List Loop → List Aggregate → List Event → List Event → List Aggregate → Type 0
  Account cell loops lost buffered taken recounted =
      assets cell (held column k ty part loops) (sum_at column k ty lost)
        (sum_of (select (is_at key_of k ty) buffered))
      ≡ income start (sum_of (select (is_at key_of k ty) taken)) (sum_at column k ty recounted)

  held_step :
      (before : List Loop) (l l' : Loop) (after : List Loop) (x : Totals)
      → at (part l) ≡ plus x (at (part l'))
      → held column k ty part (before ++ l ∷ after)
        ≡ plus x (held column k ty part (before ++ l' ∷ after))
  held_step before l l' after x h =
      held_middle column k ty part before l after
      ∙ (ap (λ t. plus t (held column k ty part (before ++ after))) h
          ∙ (plus_assoc x (at (part l')) (held column k ty part (before ++ after))
              ∙ ap (plus x) (sym (held_middle column k ty part before l' after))))

  module _ (cell : Totals) (loops : List Loop) (lost : List Aggregate) (buffered taken : List Event)
      (recounted : List Aggregate)
      (balance : Account cell loops lost buffered taken recounted) where
    pub Account-put :
        (cell' x : Totals) (before : List Loop) (l l' : Loop) (after : List Loop)
        → cell' ≡ wrap (plus cell x)
        → loops ≡ before ++ l ∷ after
        → sum_at column k ty (part l) ≡ plus x (sum_at column k ty (part l'))
        → Account cell' (before ++ l' ∷ after) lost buffered taken recounted
    Account-put cell' x before l l' after hc hl hx =
        assets-stored cell cell' x (held column k ty part loops)
          (held column k ty part (before ++ l' ∷ after)) (at lost) (made buffered) hc
          (ap (held column k ty part) hl ∙ held_step before l l' after x hx)
        ∙ balance

    pub Account-other :
        (cell' : Totals) (before : List Loop) (l l' : Loop) (after : List Loop)
        → cell' ≡ cell
        → loops ≡ before ++ l ∷ after
        → sum_at column k ty (part l) ≡ sum_at column k ty (part l')
        → Account cell' (before ++ l' ∷ after) lost buffered taken recounted
    Account-other cell' before l l' after hc hl hx =
        ap₂ (λ c h. assets c h (at lost) (made buffered)) hc
          (sym (
            ap (held column k ty part) hl
            ∙ (held_step before l l' after no_totals (hx ∙ sym (zero_plus _)) ∙ zero_plus _)))
        ∙ balance

    pub Account-fail :
        (cell' : Totals) (lost' : List Aggregate) (before : List Loop) (l : Loop)
        (after : List Loop)
        → cell' ≡ cell
        → loops ≡ before ++ l ∷ after
        → sum_at column k ty lost' ≡ plus (sum_at column k ty (part l)) (sum_at column k ty lost)
        → Account cell' (before ++ after) lost' buffered taken recounted
    Account-fail cell' lost' before l after hc hl hx =
        assets-lost cell cell' (at (part l)) (held column k ty part loops)
          (held column k ty part (before ++ after)) (at lost) (at lost') (made buffered) hc
          (ap (held column k ty part) hl ∙ held_middle column k ty part before l after) hx
        ∙ balance

    pub Account-swap :
        (l : Loop)
        → wrap (sum_of (select (is_at key_of k ty) buffered)) ≡ wrap (sum_at column k ty (part l))
        → Account cell (l ∷ loops) lost [] taken recounted
    unfolding sum_of
    Account-swap l h =
        assets-swapped cell (at (part l)) (held column k ty part loops) (at lost) (made buffered) h
        ∙ balance

    pub Account-take :
        (d : Bool) (e : Event)
        → Account cell loops lost (counted d e buffered) (counted d e taken) recounted
    Account-take d e =
        let f = is_at key_of k ty in
        let x = made (counted d e []) in
        ap (assets cell (held column k ty part loops) (at lost)) (sum_counted f d e buffered)
        ∙ (balance-taken cell (held column k ty part loops) (at lost) (made buffered) start
              (made taken) (at recounted) x balance
            ∙ ap (λ t. income start t (at recounted)) (sym (sum_counted f d e taken)))

    pub Account-read :
        (l : Loop) → Account cell (l ∷ loops) lost buffered taken (part l ++ recounted)
    Account-read l =
        balance-recounted cell (held column k ty part loops) (at lost) (made buffered) start
          (made taken) (at recounted) (at (part l)) balance
        ∙ ap (income start (made taken)) (sym (sum_at-append column k ty (part l) recounted))

  -- The account when nothing is under way.
  pub quiet-Account :
      (cell : Totals)
      → wrap cell ≡ cell
      → {loops : List Loop} {lost : List Aggregate} {buffered : List Event} (taken : List Event)
        {recounted : List Aggregate}
      → loops ≡ []
      → lost ≡ []
      → buffered ≡ []
      → recounted ≡ []
      → Account cell loops lost buffered taken recounted
      → cell ≡ wrap (plus start (sum_of (select (is_at key_of k ty) taken)))
  unfolding sum_of sum_at
  quiet-Account cell range {loops} {lost} {buffered} taken {recounted} hl ho hb hr h =
      sym range
      ∙ (sym (ap wrap (plus_zero cell))
          ∙ (sym (ap₂ (λ p l. assets cell (held column k ty part p) (at l) (made [])) hl ho)
              ∙ (sym (ap (λ b. assets cell (held column k ty part loops) (at lost) (made b)) hb)
                  ∙ (h
                      ∙ (ap (λ r. income start (made taken) (at r)) hr
                          ∙ ap (λ t. wrap (plus start t)) (plus_zero (made taken)))))))
