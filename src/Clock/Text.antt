-- ===== src/Clock/Text.antt =====
-- `Format("2006-01-02")` and `Format("2006-01")`, as lists of character codes: the keys of the buffers.
use Prim.Native.Nat.{ℕ, ◌+◌, ◌-◌, ◌/◌, ◌%◌, ◌≤◌, ◌<◌}
use mathlib.Core.Path.{◌≡◌, sym}
use mathlib.Core.List.{List, [], ◌∷◌, ◌++◌, append_assoc}
use native.Mathlib.Omega.{arith}
use network_actions_aggregat.Prelude.{ltb, if◌then◌else◌}
use network_actions_aggregat.Clock.Civil.{Date}

abbrev pub Text : Type 0
Text = List ℕ

abbrev digit : ℕ → ℕ
digit n = b'0' + n % 10

abbrev pad2 : ℕ → Text
pad2 n = digit (n / 10) ∷ digit n ∷ []

abbrev pad4 : ℕ → Text
pad4 n = digit (n / 1000) ∷ digit (n / 100) ∷ digit (n / 10) ∷ digit n ∷ []

-- A year has at least four digits, and a sign before the year 0; a fifth digit is written from 10000.
abbrev pad_year : ℕ → Text
pad_year n = if ltb n 10_000 then pad4 n else digit (n / 10_000) ∷ pad4 n

abbrev year_text : ℕ → Text
year_text y = if ltb y 399 then b'-' ∷ pad4 (399 - y) else pad_year (y - 399)

-- `Format("2006-01")`.
unfoldable pub month_text : Date → Text
month_text d = year_text d.year ++ (b'-' ∷ pad2 d.month)

-- `Format("2006-01-02")`.
unfoldable pub day_text : Date → Text
day_text d = year_text d.year ++ (b'-' ∷ (pad2 d.month ++ (b'-' ∷ pad2 d.day)))

-- The first day of a month is written as the month with `-01` after it.
pub day_text-first : (d : Date) → d.day ≡ 1 → day_text d ≡ month_text d ++ (b'-' ∷ b'0' ∷ b'1' ∷ [])
unfolding day_text month_text
day_text-first d h =
    rw h (sym (append_assoc (year_text d.year) (b'-' ∷ pad2 d.month) (b'-' ∷ b'0' ∷ b'1' ∷ [])))

-- The years 0 to 9999, which RFC 3339 can write.
pub record IsPrintable (d : Date) : Type 0 where
  pub year_pos : 399 ≤ d.year
  pub year_lt : d.year < 10_399
  pub month_lt : d.month < 100
  pub day_lt : d.day < 100

year_text_printable : (y : ℕ) → 399 ≤ y → y < 10_399 → year_text y ≡ pad4 (y - 399)
year_text_printable y h k = ground arith

-- The four digits, the two dashes and the two digits of a printable date, one equation for each.
digits_eq : (x y : ℕ) → x < 10_000 → y < 10_000 → pad4 x ≡ pad4 y → x ≡ y
digits_eq x y h k e = ground arith

pad2_eq : (x y : ℕ) → x < 100 → y < 100 → pad2 x ≡ pad2 y → x ≡ y
pad2_eq x y h k e = ground arith

-- Two printable dates with one text are one date.
pub day_text-injective :
    (a b : Date) → IsPrintable a → IsPrintable b → day_text a ≡ day_text b → a ≡ b
unfolding day_text
day_text-injective a b p q e = ground (
  arith,
  year_text_printable a.year p.year_pos p.year_lt,
  year_text_printable b.year q.year_pos q.year_lt,
  digits_eq (a.year - 399) (b.year - 399),
  pad2_eq a.month b.month,
  pad2_eq a.day b.day,
)
