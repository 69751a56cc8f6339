-- ===== src/Settings/Numbers.antt =====
-- `strconv.Atoi` and `fmt.Sscanf` with `%d` of Go's standard library, as the programs of cmd read their
-- numbers with them; `none` for an error.
use network_actions_aggregat.Prelude.{
  ℕ, zero, suc, ◌+◌, ◌-◌, ◌*◌, ◌^◌, Bool, ◌&&◌, ◌||◌, Option, none, some, leb, ltb, nat_beq,
  if◌then◌else◌,
}
use Prim.Native.Char.{Char, code}
use Prim.Native.String.{String, [], ◌∷◌}

pub data ℤ : Type 0 where
  pos : ℕ → ℤ
  negsuc : ℕ → ℤ

abbrev negated : ℕ → ℤ
negated zero = pos zero
negated (suc n) = negsuc n

abbrev pub is_digit : Char → Bool
is_digit c = leb 48 (code c) && leb (code c) 57

abbrev pub is_plus : Char → Bool
is_plus c = nat_beq (code c) 43

abbrev pub is_minus : Char → Bool
is_minus c = nat_beq (code c) 45

-- A number that fits 64 bits with its sign.
abbrev pub positive : Option ℕ → Option ℤ
positive none = none
positive (some n) = if ltb n (2 ^ 63) then some (pos n) else none

abbrev pub negative : Option ℕ → Option ℤ
negative none = none
negative (some n) = if leb n (2 ^ 63) then some (negated n) else none

-- The value of a text of digits after some that were read.
unfoldable pub digits_value : ℕ → String → Option ℕ
digits_value n [] = some n
digits_value n (c ∷ s) =
    let rest = digits_value (n * 10 + (code c - 48)) s in if is_digit c then rest else none

abbrev pub unsigned : String → Option ℕ
unsigned [] = none
unsigned (c ∷ s) = digits_value 0 (c ∷ s)

-- `strconv.Atoi`.
unfoldable pub atoi : String → Option ℤ
atoi [] = none
atoi (c ∷ s) =
    if is_minus c
    then negative (unsigned s)
    else if is_plus c
    then positive (unsigned s)
    else positive (unsigned (c ∷ s))

abbrev between : ℕ → ℕ → ℕ → Bool
between low high n = leb low n && leb n high

-- The spaces of `fmt`, without the line feed.
abbrev pub is_space : ℕ → Bool
is_space n =
    nat_beq n 9
    || between 11 13 n
    || nat_beq n 32
    || nat_beq n 133
    || nat_beq n 160
    || nat_beq n 5_760
    || between 8_192 8_202 n
    || between 8_232 8_233 n
    || nat_beq n 8_239
    || nat_beq n 8_287
    || nat_beq n 12_288

-- `SkipSpace`, which ends with an error at a line feed.
unfoldable pub skip_space : String → Option String
skip_space [] = some []
skip_space (c ∷ s) =
    let rest = skip_space s in
    if nat_beq (code c) 10 then none else if is_space (code c) then rest else some (c ∷ s)

-- The digits that `scanNumber` accepts; what follows is left unread.
unfoldable pub leading_digits : String → String
leading_digits [] = []
leading_digits (c ∷ s) = let rest = leading_digits s in if is_digit c then c ∷ rest else []

-- `scanInt` after the spaces.
unfoldable pub scan_int : String → Option ℤ
scan_int [] = none
scan_int (c ∷ s) =
    if is_minus c
    then negative (unsigned (leading_digits s))
    else if is_plus c
    then positive (unsigned (leading_digits s))
    else positive (unsigned (leading_digits (c ∷ s)))

abbrev pub scan_skipped : Option String → Option ℤ
scan_skipped none = none
scan_skipped (some s) = scan_int s

-- `fmt.Sscanf(value, "%d", &result)`.
unfoldable pub sscanf : String → Option ℤ
sscanf s = scan_skipped (skip_space s)
