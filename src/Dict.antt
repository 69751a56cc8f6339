-- ===== src/Dict.antt =====
-- Go's `map[K]V` as an association list with one entry for a key, for keys with a Boolean equality.
use network_actions_aggregat.Prelude.{
  ◌≡◌, refl, sym, subst, ◌∙◌, All, inl, inr, Bool-cases, Bool, true, false, List, [], ◌∷◌, Option,
  none, some, arith, Eq, ◌==◌, if◌then◌else◌,
}

abbrev pub Dict {ℓ κ} : Type ℓ → Type κ → Type (ℓ ⊔ κ)
Dict K V = List (K × V)

module _ {ℓ κ} {K : Type ℓ} {V : Type κ} ⦃e : Eq K⦄ where
  -- `m[k]`, with `none` for a missing key.
  unfoldable pub lookup : K → Dict K V → Option V
  lookup k [] = none
  lookup k ((j, v) ∷ m) = if j == k then some v else lookup k m

  -- `m[k] = v`.
  unfoldable pub insert : K → V → Dict K V → Dict K V
  insert k v [] = (k, v) ∷ []
  insert k v ((i, old) ∷ m) = if i == k then (i, v) ∷ m else (i, old) ∷ insert k v m

  -- `delete(m, k)`.
  unfoldable pub delete : K → Dict K V → Dict K V
  delete k [] = []
  delete k ((j, w) ∷ m) = if j == k then delete k m else (j, w) ∷ delete k m

  pub lookup-insert :
      (k j : K) (v : V) (m : Dict K V)
      → lookup j (insert k v m) ≡ (if k == j then some v else lookup j m)
  unfolding lookup insert
  lookup-insert k j v [] = refl
  lookup-insert k j v ((l, u) ∷ m) =
      ground (arith, e.beq_iff k j, e.beq_iff l j, e.beq_iff l k, lookup-insert k j v m)

  pub lookup-delete :
      (k j : K) (m : Dict K V) → lookup j (delete k m) ≡ (if k == j then none else lookup j m)
  unfolding lookup delete
  lookup-delete k j [] = ground arith
  lookup-delete k j ((i, w) ∷ m) =
      ground (arith, e.beq_iff k j, e.beq_iff i k, e.beq_iff i j, lookup-delete k j m)

  lookup_head : (k j : K) (w : V) (m : Dict K V) → (j == k) ≡ true → lookup k ((j, w) ∷ m) ≡ some w
  unfolding lookup
  lookup_head k j w m h = rw h

  lookup_tail :
      (k j : K) (w : V) (m : Dict K V) → (j == k) ≡ false → lookup k ((j, w) ∷ m) ≡ lookup k m
  unfolding lookup
  lookup_tail k j w m h = rw h

  -- No key occurs twice.
  abbrev pub Distinct : Dict K V → Type κ
  Distinct [] = Unit
  Distinct ((k, v) ∷ m) = (lookup k m ≡ none) × Distinct m

  pub insert-Distinct : (k : K) (v : V) (m : Dict K V) → Distinct m → Distinct (insert k v m)
  unfolding lookup insert
  insert-Distinct k v [] d = (refl, tt)
  insert-Distinct k v ((j, w) ∷ m) d =
      ground (arith, e.beq_iff j k, e.beq_iff k j, insert-Distinct k v m d.1, lookup-insert k j v m)

  -- The entries that pass a test on their value, as a loop with `delete` leaves them.
  unfoldable pub retain : (V → Bool) → Dict K V → Dict K V
  retain p [] = []
  retain p ((j, v) ∷ m) = let rest = retain p m in if p v then (j, v) ∷ rest else rest

  pub lookup-retain-some :
      (p : V → Bool) (k : K) (v : V) (m : Dict K V)
      → lookup k m ≡ some v
      → p v ≡ true
      → lookup k (retain p m) ≡ some v
  unfolding lookup retain
  lookup-retain-some p k v [] h t = h
  lookup-retain-some p k v ((j, w) ∷ m) h t = ground (arith, lookup-retain-some p k v m)

  pub lookup-retain-none :
      (p : V → Bool) (k : K) (m : Dict K V) → lookup k m ≡ none → lookup k (retain p m) ≡ none
  unfolding lookup retain
  lookup-retain-none p k [] h = refl
  lookup-retain-none p k ((j, w) ∷ m) h = ground (arith, lookup-retain-none p k m)

  pub lookup-retain_drop :
      (p : V → Bool) (k : K) (v : V) (m : Dict K V)
      → Distinct m
      → lookup k m ≡ some v
      → p v ≡ false
      → lookup k (retain p m) ≡ none
  unfolding lookup retain
  lookup-retain_drop p k v [] d h f = refl
  lookup-retain_drop p k v ((j, w) ∷ m) d h f =
      ground (arith, e.beq_iff j k, lookup-retain_drop p k v m d.1, lookup-retain-none p j m d.0)

  pub retain-Distinct : (p : V → Bool) (m : Dict K V) → Distinct m → Distinct (retain p m)
  unfolding retain
  retain-Distinct p [] d = tt
  retain-Distinct p ((j, w) ∷ m) d =
      ground (arith, retain-Distinct p m d.1, lookup-retain-none p j m d.0)

  -- What holds of every entry, for the new entry and for one that is found.
  pub insert-All {μ} :
      (P : K × V → Type μ) (k : K) (v : V) (m : Dict K V)
      → P (k, v)
      → All P m
      → All P (insert k v m)
  unfolding insert
  insert-All P k v [] p h = (p, tt)
  insert-All P k v ((j, w) ∷ m) p h = elim (Bool-cases (j == k)) [
    | inl same ↦ rw same (subst (λ i. P (i, v)) (sym ((e.beq_iff j k).0 same)) p, h.1)
    | inr other ↦ rw other (h.0, insert-All P k v m p h.1)
  ]

  pub lookup-All {μ} :
      (P : K × V → Type μ) (k : K) (v : V) (m : Dict K V) → lookup k m ≡ some v → All P m → P (k, v)
  unfolding lookup
  lookup-All P k v [] l h = absurd (cc)
  lookup-All P k v ((j, w) ∷ m) l h = elim (Bool-cases (j == k)) [
    | inl same ↦ subst P (cc ((e.beq_iff j k).0 same, lookup_head k j w m same, l)) h.0
    | inr other ↦ lookup-All P k v m (sym (lookup_tail k j w m other) ∙ l) h.1
  ]
