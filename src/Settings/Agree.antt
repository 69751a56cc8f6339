-- ===== src/Settings/Agree.antt =====
-- The two ways in which the programs of cmd read a number.
use network_actions_aggregat.Prelude.{
  ℕ, ◌+◌, ◌-◌, ◌*◌, ◌≤◌, ◌≡◌, refl, sym, ap, ◌∙◌, inl, inr, Bool, true, false, ◌||◌, Bool-cases,
  Option-cases, Option, none, some, arith, nat_beq, if◌then◌else◌,
}
use Prim.Native.Char.{Char, code}
use Prim.Native.String.{String, [], ◌∷◌}
use network_actions_aggregat.Settings.Numbers.{
  ℤ, is_digit, is_plus, is_minus, positive, negative, digits_value, unsigned, atoi, is_space,
  skip_space, leading_digits, scan_int, scan_skipped, sscanf,
}

digits_value-digit :
    (n : ℕ) (c : Char) (s : String)
    → is_digit c ≡ true
    → digits_value n (c ∷ s) ≡ digits_value (n * 10 + (code c - 48)) s
unfolding digits_value
digits_value-digit n c s d = rw d refl

digits_value-other :
    (n : ℕ) (c : Char) (s : String) → is_digit c ≡ false → digits_value n (c ∷ s) ≡ none
unfolding digits_value
digits_value-other n c s d = rw d refl

digits-leading_digits : (n m : ℕ) (s : String) → digits_value n s ≡ some m → leading_digits s ≡ s
unfolding leading_digits
digits-leading_digits n m [] h = refl
digits-leading_digits n m (c ∷ s) h = elim (Bool-cases (is_digit c)) [
  | inl d ↦ rw d (
      ap (λ t. c ∷ t)
        (digits-leading_digits (n * 10 + (code c - 48)) m s (sym (digits_value-digit n c s d) ∙ h)))
  | inr d ↦ absurd (cc (digits_value-other n c s d, h))
]

unsigned-leading_digits :
    (m : ℕ) (s : String) → unsigned s ≡ some m → unsigned (leading_digits s) ≡ some m
unsigned-leading_digits m [] h = absurd (cc)
unsigned-leading_digits m (c ∷ s) h = rw (digits-leading_digits 0 m (c ∷ s) h) h

-- A number that is read with a sign is read without what follows its digits.
signed-leading_digits :
    (sign : Option ℕ → Option ℤ) (s : String) (v : ℤ)
    → sign none ≡ none
    → sign (unsigned s) ≡ some v
    → sign (unsigned (leading_digits s)) ≡ some v
signed-leading_digits sign s v none_none h = elim (Option-cases (unsigned s)) [
  | inl bad ↦ absurd (cc)
  | inr (m, good) ↦ rw (unsigned-leading_digits m s good) (cc)
]

-- A choice by the sign keeps a value if each branch does.
by_sign :
    (v : ℤ) (minus plus : Bool) {x x' y y' z z' : Option ℤ}
    → (x ≡ some v → x' ≡ some v)
    → (y ≡ some v → y' ≡ some v)
    → (z ≡ some v → z' ≡ some v)
    → (if minus then x else if plus then y else z) ≡ some v
    → (if minus then x' else if plus then y' else z') ≡ some v
by_sign v true plus f g k h = f h
by_sign v false true f g k h = g h
by_sign v false false f g k h = k h

atoi-scan_int : (s : String) (v : ℤ) → atoi s ≡ some v → scan_int s ≡ some v
unfolding atoi scan_int
atoi-scan_int [] v h = absurd (cc)
atoi-scan_int (c ∷ s) v h =
    by_sign v (is_minus c) (is_plus c) (signed-leading_digits negative s v refl)
      (signed-leading_digits positive s v refl) (signed-leading_digits positive (c ∷ s) v refl) h

not_space : (n : ℕ) → 43 ≤ n → n ≤ 57 → (nat_beq n 10 || is_space n) ≡ false
not_space n low high = ground arith

skip_space-none :
    (c : Char) (s : String)
    → (nat_beq (code c) 10 || is_space (code c)) ≡ false
    → skip_space (c ∷ s) ≡ some (c ∷ s)
unfolding skip_space
skip_space-none c s h = from_tests (nat_beq (code c) 10) (is_space (code c)) (skip_space s) h
  where
    from_tests :
        (a b : Bool) (rest : Option String)
        → (a || b) ≡ false
        → (if a then none else if b then rest else some (c ∷ s)) ≡ some (c ∷ s)
    from_tests true b rest k = absurd (cc)
    from_tests false true rest k = absurd (cc)
    from_tests false false rest k = refl

-- What `Atoi` reads begins with a sign or a digit.
unsigned-first : (c : Char) (s : String) (m : ℕ) → unsigned (c ∷ s) ≡ some m → is_digit c ≡ true
unsigned-first c s m h = elim (Bool-cases (is_digit c)) [
  | inl d ↦ d
  | inr d ↦ absurd (cc (digits_value-other 0 c s d, h))
]

positive-first :
    (c : Char) (s : String) (v : ℤ) → positive (unsigned (c ∷ s)) ≡ some v → is_digit c ≡ true
positive-first c s v h = elim (Option-cases (unsigned (c ∷ s))) [
  | inl bad ↦ absurd (cc (ap positive bad, h))
  | inr (m, good) ↦ unsigned-first c s m good
]

atoi-first : (c : Char) (s : String) (v : ℤ) → atoi (c ∷ s) ≡ some v → (43 ≤ code c) × (code c ≤ 57)
unfolding atoi
atoi-first c s v h = elim (Bool-cases (is_minus c)) [
  | inl m ↦ ground (arith, m)
  | inr m ↦ elim (Bool-cases (is_plus c)) [
    | inl p ↦ ground (arith, p)
    | inr p ↦
        ground (arith, positive-first c s v (digit_branch (is_minus c) (is_plus c) _ _ _ m p h))
  ]
]
  where
    digit_branch :
        (minus plus : Bool) (x y z : Option ℤ)
        → minus ≡ false
        → plus ≡ false
        → (if minus then x else if plus then y else z) ≡ some v
        → z ≡ some v
    digit_branch true plus x y z m p k = absurd (cc)
    digit_branch false true x y z m p k = absurd (cc)
    digit_branch false false x y z m p k = k

-- A number that `Atoi` reads from a text, `Sscanf` reads too.
pub atoi-sscanf : (s : String) (v : ℤ) → atoi s ≡ some v → sscanf s ≡ some v
unfolding sscanf atoi
atoi-sscanf [] v h = absurd (cc)
atoi-sscanf (c ∷ s) v h =
    let (low, high) = atoi-first c s v h in
    ap scan_skipped (skip_space-none c s (not_space (code c) low high)) ∙ atoi-scan_int (c ∷ s) v h
