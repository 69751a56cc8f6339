-- ===== src/Ingest/Delivery.antt =====
-- What a worker hands to the storage: the batches it holds, and all the valid events it received.
use network_actions_aggregat.Prelude.{
  ◌≡◌, refl, sym, ap, ◌∙◌, Option, none, some, List, [], ◌∷◌, ◌++◌, inl, inr, ◌⊎◌, Option-cases,
  Bool-cases, length, leb,
}
use mathlib.Core.List.{append_assoc, append-nil}
use network_actions_aggregat.Entity.{Event, validate}
use network_actions_aggregat.Entity.Errors.{Error}
use network_actions_aggregat.Repository.{Context, EventRepository}
use network_actions_aggregat.Ingest.Retry.{IsAtomic, retry_loop_sound}
use network_actions_aggregat.Ingest.{
  Config, Contexts, Signal, done, closed, received, ticked, Worker, working, finished, after_save,
  save_batch_with_retry, save_rest, take_event, round, worker_from, worker,
}

abbrev pub keep_valid : Event → Option Error → List Event → List Event
keep_valid e none rest = e ∷ rest
keep_valid e (some x) rest = rest

-- The valid events that arrive before the worker is told to end.
unfoldable pub taken : List Signal → List Event
taken [] = []
taken (done e c ∷ xs) = []
taken (closed c ∷ xs) = []
taken (received e c ∷ xs) = keep_valid e (validate e) (taken xs)
taken (ticked c ∷ xs) = taken xs

-- How the content of the storage grows by a list of events that was saved.
pub record Growth {Db : Type 0} (repo : EventRepository Db) (C : Type 0) : Type 0 where
  pub content : Db → C
  pub merge : C → List Event → C
  pub merge-nil : (x : C) → merge x [] ≡ x
  pub merge-append : (x : C) (es fs : List Event) → merge x (es ++ fs) ≡ merge (merge x es) fs
  pub content-batch_insert :
      (ctx : Context) (es : List Event) (db db' : Db)
      → repo.batch_insert ctx es db ≡ (db', none)
      → content db' ≡ merge (content db) es

module _ {Db C : Type 0} (repo : EventRepository Db) (config : Config) (atomic : IsAtomic repo)
    (g : Growth repo C) where
  open g use {content, merge, merge-nil, merge-append, content-batch_insert}

  content-save :
      (c : Contexts) (batch : List Event) (db db' : Db)
      → save_batch_with_retry repo config c batch db ≡ (db', none)
      → content db' ≡ merge (content db) batch
  unfolding save_batch_with_retry
  content-save c batch db db' h =
      let (m, lo, hi, found) =
        retry_loop_sound repo config c batch atomic db config.retry_attempts 0 none
          (ap (λ r. r.1) h) in
      content-batch_insert (c.calls m) batch db db' (found ∙ h)

  -- The content, with what the worker holds merged in.
  abbrev pub Accounts : C → List Event → Worker × Db → Type 0
  Accounts x es (working batch, db) = merge (content db) batch ≡ merge x es
  Accounts x es (finished none, db) = content db ≡ merge x es
  Accounts x es (finished (some e), db) = Unit

  Accounts-after_save :
      (batch : List Event) (db : Db) (next : Worker) (r : Db × Option Error)
      → ((db' : Db) → r ≡ (db', none) → content db' ≡ merge (content db) batch)
      → (next ≡ working []) ⊎ ((o : Option Error) × (next ≡ finished o))
      → Accounts (content db) batch (after_save r next)
  Accounts-after_save batch db next (db', none) s (inl e) =
      rw e (merge-nil (content db') ∙ s db' refl)
  Accounts-after_save batch db next (db', none) s (inr (none, e)) = rw e (s db' refl)
  Accounts-after_save batch db next (db', none) s (inr (some x, e)) = rw e tt
  Accounts-after_save batch db next (db', some x) s n = tt

  Accounts-cong :
      (x y : C) (es fs : List Event) (s : Worker × Db)
      → merge x es ≡ merge y fs
      → Accounts x es s
      → Accounts y fs s
  Accounts-cong x y es fs (working batch, db) e h = h ∙ e
  Accounts-cong x y es fs (finished none, db) e h = h ∙ e
  Accounts-cong x y es fs (finished (some z), db) e h = tt

  Accounts-nothing :
      (db : Db) (next : Worker)
      → (next ≡ working []) ⊎ ((o : Option Error) × (next ≡ finished o))
      → Accounts (content db) [] (next, db)
  Accounts-nothing db next (inl e) = rw e
  Accounts-nothing db next (inr (none, e)) = rw e (sym (merge-nil (content db)))
  Accounts-nothing db next (inr (some x, e)) = rw e tt

  pub Accounts-save_rest :
      (c : Contexts) (batch : List Event) (next : Worker) (db : Db)
      → (next ≡ working []) ⊎ ((o : Option Error) × (next ≡ finished o))
      → Accounts (content db) batch (save_rest repo config c batch next db)
  unfolding save_rest
  Accounts-save_rest c [] next db n = Accounts-nothing db next n
  Accounts-save_rest c (e ∷ es) next db n =
      Accounts-after_save (e ∷ es) db next _ (λ db' h. content-save c (e ∷ es) db db' h) n

  Accounts-take_event :
      (c : Contexts) (batch : List Event) (db : Db)
      → Accounts (content db) batch (take_event repo config c batch db)
  unfolding take_event
  Accounts-take_event c batch db = elim (Bool-cases (leb config.batch_size (length batch))) [
    | inl full ↦ rw full (
        Accounts-after_save batch db (working []) _ (λ db' h. content-save c batch db db' h)
          (inl refl))
    | inr room ↦ rw room
  ]

  -- One event that arrives, valid or not.
  pub Accounts-received :
      (c : Contexts) (batch : List Event) (e : Event) (db : Db)
      → Accounts
          (content db)
          (batch ++ keep_valid e (validate e) [])
          (round repo config batch (received e c) db)
  unfolding round
  Accounts-received c batch e db = elim (Option-cases (validate e)) [
    | inl valid ↦ rw (valid, round) (Accounts-take_event c (batch ++ e ∷ []) db)
    | inr (x, bad) ↦ rw (bad, round, append-nil batch)
  ]

  keep_valid-append :
      (e : Event) (o : Option Error) (es : List Event) → keep_valid e o es ≡ keep_valid e o [] ++ es
  keep_valid-append e none es = refl
  keep_valid-append e (some x) es = refl

  -- A worker that has not returned nil.
  abbrev Goes : Worker × Db → Type 0
  Goes (finished none, db) = ⊥
  Goes _ = Unit

  abbrev IsFinished : Worker × Db → Type 0
  IsFinished (working batch, db) = ⊥
  IsFinished (finished r, db) = Unit

  after_save-Goes : (r : Db × Option Error) → Goes (after_save r (working []))
  after_save-Goes (db, none) = tt
  after_save-Goes (db, some e) = tt

  after_save-IsFinished :
      (r : Db × Option Error) (o : Option Error) → IsFinished (after_save r (finished o))
  after_save-IsFinished (db, none) o = tt
  after_save-IsFinished (db, some e) o = tt

  save_rest-Goes :
      (c : Contexts) (batch : List Event) (db : Db)
      → Goes (save_rest repo config c batch (working []) db)
  unfolding save_rest
  save_rest-Goes c [] db = tt
  save_rest-Goes c (e ∷ es) db = after_save-Goes _

  save_rest-IsFinished :
      (c : Contexts) (batch : List Event) (o : Option Error) (db : Db)
      → IsFinished (save_rest repo config c batch (finished o) db)
  unfolding save_rest
  save_rest-IsFinished c [] o db = tt
  save_rest-IsFinished c (e ∷ es) o db = after_save-IsFinished _ o

  received-Goes :
      (c : Contexts) (batch : List Event) (e : Event) (db : Db)
      → Goes (round repo config batch (received e c) db)
  unfolding round take_event
  received-Goes c batch e db = elim (Option-cases (validate e)) [
    | inl valid ↦ elim (Bool-cases (leb config.batch_size (length (batch ++ e ∷ [])))) [
      | inl full ↦ rw (valid, round, full) (after_save-Goes _)
      | inr room ↦ rw (valid, round, room) tt
    ]
    | inr (x, bad) ↦ rw (bad, round) tt
  ]

  Accounts-stopped :
      (xs : List Signal) (x : C) (es : List Event) (s : Worker × Db)
      → IsFinished s
      → Accounts x es s
      → Accounts x es (worker_from repo config xs s)
  unfolding worker_from
  Accounts-stopped [] x es s f h = h
  Accounts-stopped (y ∷ xs) x es (finished r, db) f h = h
  Accounts-stopped (y ∷ xs) x es (working batch, db) f h = absurd f

  -- The rest of the loop, from the state after a round.
  Accounts-going :
      (xs : List Signal) (x : C) (es : List Event) (s : Worker × Db)
      → ((batch : List Event) (db : Db)
          → merge (content db) batch ≡ merge x es
          → Accounts x (es ++ taken xs) (worker_from repo config xs (working batch, db)))
      → Goes s
      → Accounts x es s
      → Accounts x (es ++ taken xs) (worker_from repo config xs s)
  unfolding worker_from
  Accounts-going xs x es (working batch, db) ih f h = ih batch db h
  Accounts-going xs x es (finished none, db) ih f h = absurd f
  Accounts-going [] x es (finished (some e), db) ih f h = tt
  Accounts-going (y ∷ xs) x es (finished (some e), db) ih f h = tt

  merge-step :
      (db : Db) (x : C) (batch es new : List Event)
      → merge (content db) batch ≡ merge x es
      → merge (content db) (batch ++ new) ≡ merge x (es ++ new)
  merge-step db x batch es new h =
      merge-append (content db) batch new ∙ (ap (λ y. merge y new) h ∙ sym (merge-append x es new))

  Accounts-worker_from :
      (xs : List Signal) (x : C) (es batch : List Event) (db : Db)
      → merge (content db) batch ≡ merge x es
      → Accounts x (es ++ taken xs) (worker_from repo config xs (working batch, db))
  unfolding worker_from round taken
  Accounts-worker_from [] x es batch db h = rw (append-nil es) h
  Accounts-worker_from (done e c ∷ xs) x es batch db h = rw (append-nil es) (
      Accounts-stopped xs x es _ (save_rest-IsFinished c batch (some e) db) (
        Accounts-cong _ _ _ _ (save_rest repo config c batch (finished (some e)) db) h
          (Accounts-save_rest c batch (finished (some e)) db (inr (some e, refl)))))
  Accounts-worker_from (closed c ∷ xs) x es batch db h = rw (append-nil es) (
      Accounts-stopped xs x es _ (save_rest-IsFinished c batch none db) (
        Accounts-cong _ _ _ _ (save_rest repo config c batch (finished none) db) h
          (Accounts-save_rest c batch (finished none) db (inr (none, refl)))))
  Accounts-worker_from (received e c ∷ xs) x es batch db h =
      let new = keep_valid e (validate e) [] in
      rw (keep_valid-append e (validate e) (taken xs), ← append_assoc es new (taken xs))
        (Accounts-going xs x (es ++ new) _ (λ b d. Accounts-worker_from xs x (es ++ new) b d)
          (received-Goes c batch e db)
          (Accounts-cong _ _ _ _ (round repo config batch (received e c) db)
            (merge-step db x batch es new h) (Accounts-received c batch e db)))
  Accounts-worker_from (ticked c ∷ xs) x es batch db h =
      Accounts-going xs x es _ (λ b d. Accounts-worker_from xs x es b d) (save_rest-Goes c batch db)
        (Accounts-cong _ _ _ _ (save_rest repo config c batch (working []) db) h
          (Accounts-save_rest c batch (working []) db (inl refl)))

  -- Over a storage that an insert with an error leaves as it was and whose content grows by the batches
  -- of the others: a worker that is told of the end of the channel and returns nil has handed every
  -- valid event that it received to the storage, each once and in order; while it runs, those in its
  -- batch are the ones that are missing. Invalid events are left out. (A worker that returned an error
  -- is left out of account.)
  pub worker-Accounts :
      (xs : List Signal) (db : Db) → Accounts (content db) (taken xs) (worker repo config xs db)
  unfolding worker
  worker-Accounts xs db = Accounts-worker_from xs (content db) [] [] db refl
