-- ===== src/Verifier/Tracking/Counting.antt =====
-- Counting the keys of the verifier's maps: a part that is as long as the whole is the whole.
use network_actions_aggregat.Prelude.{
  ◌≡◌, refl, ap, ◌∙◌, ◌≤◌, true, false, Bool-cases, inl, inr, [], ◌∷◌, arith, nat_beq, nat_beq_iff,
  suc, length, nat_eq,
}
use network_actions_aggregat.Dict.{Dict, lookup, delete, Distinct}
use network_actions_aggregat.Clock.{Time}
use network_actions_aggregat.Entity.{Uuid}
use network_actions_aggregat.Verifier.Tracking.{is_some, has}
use network_actions_aggregat.Verifier.Tracking.Found.{has-delete}

-- Counting the keys of a map.
delete_missing : (k : Uuid) (m : Dict Uuid Time) → has k m ≡ false → length (delete k m) ≡ length m
unfolding lookup delete
delete_missing k [] h = refl
delete_missing k ((j, t) ∷ m) h =
    ground (arith, delete_missing k m, nat_beq_iff j k, nat_beq_iff k j)

length-delete :
    (k : Uuid) (m : Dict Uuid Time)
    → Distinct m
    → has k m ≡ true
    → suc (length (delete k m)) ≡ length m
unfolding lookup delete
length-delete k [] d h = absurd (cc)
length-delete k ((j, t) ∷ m) d h = elim (Bool-cases (nat_beq j k)) [
  | inl same ↦ ground (arith, delete_missing k m, ap (λ i. has i m) ((nat_beq_iff j k).0 same), d.0)
  | inr other ↦ ground (arith, length-delete k m)
]

delete-Distinct : (k : Uuid) (m : Dict Uuid Time) → Distinct m → Distinct (delete k m)
unfolding lookup delete
delete-Distinct k [] d = tt
delete-Distinct k ((j, t) ∷ m) d =
    ground (arith, delete-Distinct k m, has-delete j k m, d.0, nat_beq_iff j k, nat_beq_iff k j)

abbrev pub IsWithin : Dict Uuid Time → Dict Uuid Time → Type 0
IsWithin a b = (id : Uuid) → has id a ≡ true → has id b ≡ true

tail-IsWithin :
    (j : Uuid) (t : Time) (a b : Dict Uuid Time)
    → Distinct ((j, t) ∷ a)
    → IsWithin ((j, t) ∷ a) b
    → IsWithin a (delete j b)
unfolding lookup
tail-IsWithin j t a b d w id h = elim (Bool-cases (nat_beq j id)) [
  | inl same ↦ absurd (cc (ap (λ i. has i a) ((nat_beq_iff j id).0 same), h, ap is_some d.0))
  | inr other ↦ has-delete id j b ∙ rw other (w id (rw other h))
]

head_has : (j : Uuid) (t : Time) (a : Dict Uuid Time) → has j ((j, t) ∷ a) ≡ true
unfolding lookup
head_has j t a = ground (arith, nat_beq_iff j j)

-- A part is not longer than the whole, and a part as long as the whole is all of it.
length_within :
    (a b : Dict Uuid Time) → Distinct a → Distinct b → IsWithin a b → length a ≤ length b
length_within [] b da db w = omega arith
length_within ((j, t) ∷ a) b da db w = omega (
  arith,
  length-delete j b db (w j (head_has j t a)),
  length_within a (delete j b) da.1 (delete-Distinct j b db) (tail-IsWithin j t a b da w),
)

pub IsWithin-all :
    (a b : Dict Uuid Time)
    → Distinct a
    → Distinct b
    → IsWithin a b
    → length a ≡ length b
    → IsWithin b a
unfolding lookup
IsWithin-all [] [] da db w l id h = h
IsWithin-all [] (x ∷ b) da db w l id h = absurd (omega arith)
IsWithin-all ((j, t) ∷ a) b da db w l id h = elim (Bool-cases (nat_beq j id)) [
  | inl same ↦ rw same refl
  | inr other ↦
      let ih =
        IsWithin-all a (delete j b) da.1 (delete-Distinct j b db) (tail-IsWithin j t a b da w)
          (omega (arith, length-delete j b db (w j (head_has j t a)))) id in
      rw other (ih (has-delete id j b ∙ rw other h))
]
