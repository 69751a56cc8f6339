-- ===== src/Ingest/Pool/Saved.antt =====
-- What `ProcessEvents` has stored when it returns nil.
use network_actions_aggregat.Prelude.{
  ℕ, zero, suc, ◌≡◌, refl, sym, ap, subst, ◌∙◌, Option, none, some, List, [], ◌∷◌, ◌++◌, All, inl,
  inr,
}
use mathlib.Core.List.{append-nil}
use network_actions_aggregat.Entity.{Event}
use network_actions_aggregat.Entity.Errors.{Error}
use network_actions_aggregat.Repository.{EventRepository}
use network_actions_aggregat.Ingest.{
  Config, Signal, done, closed, received, ticked, Worker, working, finished, round,
}
use network_actions_aggregat.Ingest.Retry.{IsAtomic}
use network_actions_aggregat.Ingest.Delivery.{
  Growth, Accounts, Accounts-save_rest, Accounts-received,
}
use network_actions_aggregat.Ingest.Pool.{
  Pool, new_workers, new_pool, keep_error, taken_in, Step, take_round, Run, here, next, HasReturned,
  IsOver,
}

-- The batches that the workers hold.
abbrev pub batch_of : Worker → List Event
batch_of (working batch) = batch
batch_of (finished r) = []

module _ {Db C : Type 0} (repo : EventRepository Db) (config : Config) (atomic : IsAtomic repo)
    (g : Growth repo C)
    (merge_comm : (x : C) (es fs : List Event)
      → g.merge (g.merge x es) fs ≡ g.merge (g.merge x fs) es) where
  open g use {content, merge, merge-nil, merge-append}

  -- A content with all that the workers hold merged in.
  abbrev pub merged : C → List Worker → C
  merged x [] = x
  merged x (w ∷ ws) = merged (merge x (batch_of w)) ws

  pub merged-merge :
      (x : C) (es : List Event) (ws : List Worker) → merged (merge x es) ws ≡ merge (merged x ws) es
  merged-merge x es [] = refl
  merged-merge x es (w ∷ ws) =
      ap (λ y. merged y ws) (merge_comm x es (batch_of w))
      ∙ merged-merge (merge x (batch_of w)) es ws

  merged_middle :
      (x : C) (before : List Worker) (w : Worker) (after : List Worker)
      → merged x (before ++ w ∷ after) ≡ merge (merged x (before ++ after)) (batch_of w)
  merged_middle x [] w after = merged-merge x (batch_of w) after
  merged_middle x (v ∷ before) w after = merged_middle (merge x (batch_of v)) before w after

  round-Accounts :
      (batch : List Event) (x : Signal) (db : Db)
      → Accounts repo config atomic g
          (content db)
          (batch ++ taken_in x)
          (round repo config batch x db)
  unfolding round
  round-Accounts batch (done e c) db =
      rw (append-nil batch) (
        Accounts-save_rest repo config atomic g c batch (finished (some e)) db (inr (some e, refl)))
  round-Accounts batch (closed c) db =
      rw (append-nil batch)
        (Accounts-save_rest repo config atomic g c batch (finished none) db (inr (none, refl)))
  round-Accounts batch (received e c) db = Accounts-received repo config atomic g c batch e db
  round-Accounts batch (ticked c) db =
      rw (append-nil batch)
        (Accounts-save_rest repo config atomic g c batch (working []) db (inl refl))

  -- A round that returned no error leaves the content and its batch with what there was and came in.
  round_lem :
      (batch : List Event) (new : List Event) (o : Option Error) (x : C) (w : Worker) (db : Db)
      → Accounts repo config atomic g x (batch ++ new) (w, db)
      → keep_error o w ≡ none
      → merge (content db) (batch_of w) ≡ merge x (batch ++ new)
  round_lem batch new o x (working b) db a h = a
  round_lem batch new o x (finished none) db a h = merge-nil (content db) ∙ a
  round_lem batch new none x (finished (some e)) db a h = absurd (cc)
  round_lem batch new (some y) x (finished (some e)) db a h = absurd (cc)

  keep_error-none : (o : Option Error) (w : Worker) → keep_error o w ≡ none → o ≡ none
  keep_error-none none w h = refl
  keep_error-none (some e) w h = absurd (cc)

  module _ (db0 : Db) where
    -- As long as no worker failed, the storage and the batches account for all that was received.
    abbrev Sound : Pool Db → Type 0
    Sound p = p.first_error ≡ none → merged (content p.db) p.workers ≡ merge (content db0) p.taken

    step-Sound : {p p' : Pool Db} → Step repo config p p' → Sound p → Sound p'
    step-Sound {p} (take_round before batch after x w db hw hr) i h =
        let rest = before ++ after in
        let a =
          subst (Accounts repo config atomic g (content p.db) (batch ++ taken_in x)) hr
            (round-Accounts batch x p.db) in
        let grown = round_lem batch (taken_in x) p.first_error (content p.db) w db a h in
        let before_it : merge (merged (content p.db) rest) batch ≡ merge (content db0) p.taken =
          sym (
            ap (merged (content p.db)) hw
            ∙ merged_middle (content p.db) before (working batch) after)
          ∙ i (keep_error-none p.first_error w h) in
        merged_middle (content db) before w after
        ∙ (sym (merged-merge (content db) (batch_of w) rest)
            ∙ (ap (λ y. merged y rest) grown
                ∙ (merged-merge (content p.db) (batch ++ taken_in x) rest
                    ∙ (merge-append (merged (content p.db) rest) batch (taken_in x)
                        ∙ (ap (λ y. merge y (taken_in x)) before_it
                            ∙ sym (merge-append (content db0) p.taken (taken_in x)))))))

    new-merged : (n : ℕ) (x : C) → merged x (new_workers n) ≡ x
    new-merged zero x = refl
    new-merged (suc n) x = ap (λ y. merged y (new_workers n)) (merge-nil x) ∙ new-merged n x

    pub run-Sound : (p : Pool Db) → Run repo config db0 p → Sound p
    unfolding new_pool
    run-Sound p here h =
        new-merged config.workers_count (content db0) ∙ sym (merge-nil (content db0))
    run-Sound p (next r x) h = step-Sound x (run-Sound _ r) h

    returned-merged : (ws : List Worker) (x : C) → All HasReturned ws → merged x ws ≡ x
    returned-merged [] x h = refl
    returned-merged (working batch ∷ ws) x h = absurd h.0
    returned-merged (finished r ∷ ws) x h =
        ap (λ y. merged y ws) (merge-nil x) ∙ returned-merged ws x h.1

    -- Over a storage that an insert with an error leaves as it was and whose content grows by the batches of
    -- the others, in whatever order: if `ProcessEvents` returns nil, the storage has grown by all the valid
    -- events that its workers received, however many workers there are, however their rounds interleave
    -- and however the events were shared and cut into batches.
    pub process_events-Sound :
        (p : Pool Db)
        → Run repo config db0 p
        → IsOver p
        → p.first_error ≡ none
        → content p.db ≡ merge (content db0) p.taken
    process_events-Sound p r over h =
        sym (returned-merged p.workers (content p.db) over) ∙ run-Sound p r h
