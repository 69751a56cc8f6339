-- ===== src/Generator/Drawn.antt =====
-- What the draws of cmd/generator/generator.go give, none of which panics.
use network_actions_aggregat.Prelude.{
  ℕ, zero, suc, ◌<◌, ◌≡◌, refl, inl, inr, String, Bool, true, false, Bool-cases, Option, some, List,
  [], ◌∷◌, length, All, ltb, nat_beq, string_eq, arith, if◌then◌else◌,
}
use network_actions_aggregat.Dict.{Dict}
use network_actions_aggregat.Entity.{
  EventType, is_valid, event_type_call_out, event_type_call_in, event_type_sms_sent,
  event_type_sms_received, event_type_data,
}
use network_actions_aggregat.Entity.Json.{Json, str}
use network_actions_aggregat.Generator.{
  Random, IsRandom, get, intn, cells, imeis, either_type, type_of_roll, random_event_type,
  maybe_signal, generate_meta,
}

-- A draw that does not panic and whose result has a property.
abbrev pub Gives : {S A : Type 0} → (A → Type 0) → Option (A × S) → Type 0
Gives {S} {A} P o = (a : A) × (s : S) × ((o ≡ some (a, s)) × P a)

abbrev pub Any : {A : Type 0} → A → Type 0
Any a = Unit {0}

pub get-Gives :
    {S A : Type 0} (P : A → Type 0) (xs : List A) (n : ℕ) (s : S)
    → All P xs
    → n < length xs
    → (a : A) × ((get xs n s ≡ some (a, s)) × P a)
get-Gives P [] n s h l = absurd (omega arith)
get-Gives P (x ∷ xs) zero s h l = (x, (refl, h.0))
get-Gives P (x ∷ xs) (suc n) s h l = get-Gives P xs n s h.1 (omega arith)

pub All-Any : {A : Type 0} (xs : List A) → All Any xs
All-Any [] = tt
All-Any (x ∷ xs) = (tt, All-Any xs)

module _ {S : Type 0} (r : Random S) (random : IsRandom r) where
  pub intn-Gives : (n : ℕ) (s : S) → 0 < n → Gives (λ i. i < n) (intn r n s)
  intn-Gives zero s h = absurd (omega arith)
  intn-Gives (suc n) s h =
      ((r.below (suc n) s).0, (r.below (suc n) s).1, (refl, random.below-lt (suc n) s h))

  pub either_type-Gives :
      (a b : EventType) (s : S)
      → is_valid a ≡ true
      → is_valid b ≡ true
      → Gives (λ t. is_valid t ≡ true) (either_type r a b s)
  either_type-Gives a b s va vb = (_, _, (refl, picked (nat_beq (r.below 2 s).0 0)))
    where
      picked : (c : Bool) → is_valid (if c then a else b) ≡ true
      picked true = va
      picked false = vb

  pub type_of_roll-Gives : (n : ℕ) (s : S) → Gives (λ t. is_valid t ≡ true) (type_of_roll r n s)
  unfolding is_valid
  type_of_roll-Gives n s = elim (Bool-cases (ltb n 60)) [
    | inl a ↦ rw a (event_type_data, s, (refl, refl))
    | inr b ↦ elim (Bool-cases (ltb n 75)) [
      | inl c ↦ rw (b, c) (either_type-Gives event_type_call_out event_type_call_in s refl refl)
      | inr d ↦
          rw (b, d) (either_type-Gives event_type_sms_sent event_type_sms_received s refl refl)
    ]
  ]

  pub random_event_type-Gives : (s : S) → Gives (λ t. is_valid t ≡ true) (random_event_type r s)
  unfolding random_event_type
  random_event_type-Gives s = type_of_roll-Gives (r.below 100 s).0 (r.below 100 s).1

  pub maybe_signal-Gives :
      (text : ℕ → String) (n : ℕ) (m : Dict String Json) (s : S)
      → Gives Any (maybe_signal r text n m s)
  maybe_signal-Gives text n m s = elim (Bool-cases (ltb n 3)) [
    | inl a ↦ rw a (_, _, (refl, tt))
    | inr b ↦ rw b (_, _, (refl, tt))
  ]

  pub generate_meta-Gives : (text : ℕ → String) (s : S) → Gives Any (generate_meta r text s)
  unfolding generate_meta
  generate_meta-Gives text s =
      let d1 = r.below 8 s in
      let (cell, (e1, p1)) =
        get-Gives Any cells d1.0 d1.1 (All-Any cells) (random.below-lt 8 s (omega arith)) in
      let d2 = r.below 4 d1.1 in
      let (imei, (e2, p2)) =
        get-Gives Any imeis d2.0 d2.1 (All-Any imeis) (random.below-lt 4 d1.1 (omega arith)) in
      let d3 = r.below 10 d2.1 in
      let (m, s', (e3, p3)) =
        maybe_signal-Gives text d3.0 (("cell", str cell) ∷ ("imei", str imei) ∷ []) d3.1 in
      rw (e1, e2, e3) (_, _, (refl, tt))
