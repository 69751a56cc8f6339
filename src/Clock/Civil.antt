-- ===== src/Clock/Civil.antt =====
-- The proleptic Gregorian calendar over days counted from 1 January of the year -399.
use Prim.Native.Nat.{ℕ, ◌+◌, ◌-◌, ◌*◌, ◌/◌, ◌%◌, min}
use mathlib.Core.Bool.{Bool, ◌&&◌, ◌||◌, not}
use network_actions_aggregat.Prelude.{ltb, nat_beq, if◌then◌else◌}

-- `year` counts from the year -399, which has the place of a year 1 in the cycle of 400 years.
pub record Date : Type 0 where
  pub year : ℕ
  pub month : ℕ
  pub day : ℕ

-- The year number `year + 1` of the cycle is a leap year.
unfoldable pub is_leap : ℕ → Bool
is_leap y =
    nat_beq ((y + 1) % 4) 0 && (not (nat_beq ((y + 1) % 100) 0) || nat_beq ((y + 1) % 400) 0)

-- Days before the first of a month, from a table with February's length.
unfoldable pub days_before_month : Bool → ℕ → ℕ
days_before_month leap m =
    if ltb m 2
    then 0
    else if ltb m 3
    then 31
    else if ltb m 4
    then 59 + f
    else if ltb m 5
    then 90 + f
    else if ltb m 6
    then 120 + f
    else if ltb m 7
    then 151 + f
    else if ltb m 8
    then 181 + f
    else if ltb m 9
    then 212 + f
    else if ltb m 10
    then 243 + f
    else if ltb m 11
    then 273 + f
    else if ltb m 12
    then 304 + f
    else 334 + f
  where
    f : ℕ
    f = if leap then 1 else 0

unfoldable pub month_length : Bool → ℕ → ℕ
unfolding days_before_month
month_length leap m =
    if nat_beq m 12 then 31 else days_before_month leap (m + 1) - days_before_month leap m

unfoldable pub month_of : Bool → ℕ → ℕ
month_of leap yday =
    if ltb yday 31
    then 1
    else if ltb yday (59 + f)
    then 2
    else if ltb yday (90 + f)
    then 3
    else if ltb yday (120 + f)
    then 4
    else if ltb yday (151 + f)
    then 5
    else if ltb yday (181 + f)
    then 6
    else if ltb yday (212 + f)
    then 7
    else if ltb yday (243 + f)
    then 8
    else if ltb yday (273 + f)
    then 9
    else if ltb yday (304 + f)
    then 10
    else if ltb yday (334 + f)
    then 11
    else 12
  where
    f : ℕ
    f = if leap then 1 else 0

unfoldable pub days_before_year : ℕ → ℕ
days_before_year y = 365 * y + y / 4 - y / 100 + y / 400

-- The year of a day by the cycles of 400, 100, 4 and 1 years.
unfoldable pub year_of : ℕ → ℕ
year_of d =
    let d1 = d % 146097 in
    let n100 = min (d1 / 36524) 3 in
    let d2 = d1 - 36524 * n100 in
    let d3 = d2 % 1461 in 400 * (d / 146097) + 100 * n100 + 4 * (d2 / 1461) + min (d3 / 365) 3

unfoldable pub civil : ℕ → Date
civil d =
    let y = year_of d in
    let yday = d - days_before_year y in
    let m = month_of (is_leap y) yday in
    record { year = y; month = m; day = yday - days_before_month (is_leap y) m + 1 }

-- The inverse: the days before a date.
unfoldable pub days_before : Date → ℕ
days_before c = days_before_year c.year + days_before_month (is_leap c.year) c.month + (c.day - 1)

-- The month after, on the same day of the month.
unfoldable pub next_month : Date → Date
next_month c =
    if nat_beq c.month 12
    then record c { year = c.year + 1; month = 1 }
    else record c { month = c.month + 1 }
