-- ===== src/Ingest/Retry.antt =====
-- When `saveBatchWithRetry` succeeds, over a storage whose failed inserts change nothing.
use network_actions_aggregat.Prelude.{
  ℕ, zero, suc, ◌+◌, ◌≤◌, ◌<◌, ◌≡◌, refl, sym, ap, ◌∙◌, ◌↔◌, Option, none, some, List, arith, inl,
  inr, ◌⊎◌, Option-cases,
}
use native.Mathlib.Decide.{ℕ_discrete}
use network_actions_aggregat.Entity.{Event}
use network_actions_aggregat.Entity.Errors.{Error}
use network_actions_aggregat.Repository.{Context, EventRepository}
use network_actions_aggregat.Ingest.{
  Config, Contexts, wait_before, retry_loop, save_batch_with_retry,
}

-- An insert that fails leaves the storage as it was (one statement, one transaction).
abbrev pub IsAtomic : {Db : Type 0} → EventRepository Db → Type 0
IsAtomic {Db} repo =
    (ctx : Context) (es : List Event) (db db' : Db) (e : Error)
    → repo.batch_insert ctx es db ≡ (db', some e)
    → db' ≡ db

no_wait : (c : Contexts) (n : ℕ) → ((i : ℕ) → c.waits i ≡ none) → wait_before c n ≡ none
no_wait c zero w = refl
no_wait c (suc n) w = w (suc n)

module _ {Db : Type 0} (repo : EventRepository Db) (config : Config) (c : Contexts)
    (batch : List Event) (atomic : IsAtomic repo) (db : Db) where
  -- What attempt `n` returns.
  abbrev pub attempt : ℕ → Db × Option Error
  attempt n = repo.batch_insert (c.calls n) batch db

  abbrev loop : ℕ → ℕ → Option Error → Db × Option Error
  loop left n last = retry_loop repo config c batch left n last db

  retry_loop-saved :
      (left n : ℕ) (last : Option Error) (r : Db × Option Error)
      → wait_before c n ≡ none
      → attempt n ≡ r
      → r.1 ≡ none
      → loop (suc left) n last ≡ r
  unfolding retry_loop
  retry_loop-saved left n last (db', none) w e h = rw (w, e)
  retry_loop-saved left n last (db', some x) w e h = absurd (cc)

  retry_loop-failed :
      (left n : ℕ) (last : Option Error) (db' : Db) (x : Error)
      → wait_before c n ≡ none
      → attempt n ≡ (db', some x)
      → loop (suc left) n last ≡ loop left (suc n) (some x)
  unfolding retry_loop
  retry_loop-failed left n last db' x w e =
      rw (w, e)
        (ap (λ d. retry_loop repo config c batch left (suc n) (some x) d) (atomic _ _ db db' x e))

  retry_loop-stopped :
      (left n : ℕ) (last : Option Error) (x : Error)
      → wait_before c n ≡ some x
      → loop (suc left) n last ≡ (db, some x)
  unfolding retry_loop
  retry_loop-stopped left n last x w = rw w

  call_cases :
      (r : Db × Option Error) → (r.1 ≡ none) ⊎ ((x : Error) × (db' : Db) × (r ≡ (db', some x)))
  call_cases (db', none) = inl refl
  call_cases (db', some x) = inr (x, db', refl)

  pub retry_loop_sound :
      (left n : ℕ) (last : Option Error)
      → (loop left n last).1 ≡ none
      → (m : ℕ) × (n ≤ m) × (m < n + left) × (attempt m ≡ loop left n last)
  unfolding retry_loop
  retry_loop_sound zero n last h = absurd (cc)
  retry_loop_sound (suc left) n last h = elim (Option-cases (wait_before c n)) [
    | inr (x, w) ↦ absurd (cc (ap (λ r. r.1) (retry_loop-stopped left n last x w), h))
    | inl w ↦ elim (call_cases (attempt n)) [
      | inl saved ↦
          (n, omega arith, omega arith, sym (retry_loop-saved left n last (attempt n) w refl saved))
      | inr (x, db', e) ↦
          let same = retry_loop-failed left n last db' x w e in
          let (m, lo, hi, found) =
            retry_loop_sound left (suc n) (some x) (ap (λ r. r.1) (sym same) ∙ h) in
          (m, omega arith, omega arith, found ∙ sym same)
    ]
  ]

  retry_loop_complete :
      (left n m : ℕ) (last : Option Error)
      → ((i : ℕ) → c.waits i ≡ none)
      → n ≤ m
      → m < n + left
      → (attempt m).1 ≡ none
      → (loop left n last).1 ≡ none
  retry_loop_complete zero n m last w lo hi s = absurd (omega arith)
  retry_loop_complete (suc left) n m last w lo hi s =
      let open_now = no_wait c n w in
      elim (call_cases (attempt n)) [
        | inl saved ↦ rw (retry_loop-saved left n last (attempt n) open_now refl saved) saved
        | inr (x, db', e) ↦ rw (retry_loop-failed left n last db' x open_now e) (
            retry_loop_complete left (suc n) m (some x) w
              (elim (ℕ_discrete n m) [
                | yes p ↦ absurd (cc (ap (λ r. r.1) e, ap (λ i. (attempt i).1) p, s))
                | no p ↦ omega arith
              ])
              (omega arith) s)
      ]

  pub retry_loop-unchanged :
      (left n : ℕ) (last : Option Error) (x : Error)
      → (loop left n last).1 ≡ some x
      → (loop left n last).0 ≡ db
  unfolding retry_loop
  retry_loop-unchanged zero n last x h = refl
  retry_loop-unchanged (suc left) n last x h = elim (Option-cases (wait_before c n)) [
    | inr (y, w) ↦ ap (λ r. r.0) (retry_loop-stopped left n last y w)
    | inl w ↦ elim (call_cases (attempt n)) [
      | inl saved ↦
          absurd
            (cc (ap (λ r. r.1) (retry_loop-saved left n last (attempt n) w refl saved), h, saved))
      | inr (y, db', e) ↦
          let same = retry_loop-failed left n last db' y w e in
          ap (λ r. r.0) same
          ∙ retry_loop-unchanged left (suc n) (some y) x (ap (λ r. r.1) (sym same) ∙ h)
    ]
  ]

  -- Over a storage that an insert with an error leaves as it was, while the context is not done: a save
  -- succeeds exactly if one of the configured number of attempts does; whenever it fails the storage is
  -- as it was.
  pub save_batch_with_retry_iff :
      ((i : ℕ) → c.waits i ≡ none)
      → let r = save_batch_with_retry repo config c batch db in
        ((r.1 ≡ none) ↔ ((m : ℕ) × (m < config.retry_attempts) × ((attempt m).1 ≡ none)))
        × ((x : Error) → r.1 ≡ some x → r.0 ≡ db)
  unfolding save_batch_with_retry
  save_batch_with_retry_iff w = (
    (
      λ h.
          let (m, lo, hi, found) = retry_loop_sound config.retry_attempts 0 none h in
          (m, omega arith, ap (λ r. r.1) found ∙ h),
      λ (m, hi, s).
          retry_loop_complete config.retry_attempts 0 m none w (omega arith) (omega arith) s,
    ),
    λ x h. retry_loop-unchanged config.retry_attempts 0 none x h,
  )
