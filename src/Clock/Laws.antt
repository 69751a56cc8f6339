-- ===== src/Clock/Laws.antt =====
-- Laws of the calendar and of the truncations to a day and to a month.
use Prim.Native.Nat.{ℕ, ◌+◌, ◌-◌, ◌≤◌, ◌<◌}
use mathlib.Core.Path.{◌≡◌, refl}
use mathlib.Core.Bool.{Bool, true, false}
use native.Mathlib.Decide.{dec_lt}
use native.Mathlib.Omega.{arith}
use network_actions_aggregat.Clock.Civil.{
  Date, is_leap, days_before_month, month_of, days_before_year, year_of, civil, days_before,
  month_length, next_month,
}
use network_actions_aggregat.Prelude.{if◌then◌else◌, nat_beq}

abbrev leap_day : Bool → ℕ
leap_day b = if b then 1 else 0

year_of_lower : (d : ℕ) → days_before_year (year_of d) ≤ d
unfolding days_before_year year_of
year_of_lower d = omega arith

year_of_upper : (d : ℕ) → d < days_before_year (year_of d + 1)
unfolding days_before_year year_of
year_of_upper d = omega arith

days_before_year-step :
    (y : ℕ) → days_before_year (y + 1) ≡ days_before_year y + 365 + leap_day (is_leap y)
unfolding days_before_year is_leap
days_before_year-step y = ground arith

days_before_year_mono : (y z : ℕ) → y ≤ z → days_before_year y ≤ days_before_year z
unfolding days_before_year
days_before_year_mono y z h = omega arith

month_of_bounds :
    (leap : Bool) (yday : ℕ)
    → yday < 365 + leap_day leap
    → (1 ≤ month_of leap yday)
      × (month_of leap yday ≤ 12)
      × (days_before_month leap (month_of leap yday) ≤ yday)
      × (yday
          < days_before_month leap (month_of leap yday) + month_length leap (month_of leap yday))
unfolding month_of days_before_month month_length
month_of_bounds true yday h = ground arith
month_of_bounds false yday h = ground arith

year_of_unique : (d y : ℕ) → days_before_year y ≤ d → d < days_before_year (y + 1) → year_of d ≡ y
year_of_unique d y lo hi = elim (dec_lt (year_of d) y) [
  | yes p ↦ absurd (omega (arith, year_of_upper d, days_before_year_mono (year_of d + 1) y))
  | no p ↦ elim (dec_lt y (year_of d)) [
    | yes q ↦ absurd (omega (arith, year_of_lower d, days_before_year_mono (y + 1) (year_of d)))
    | no q ↦ omega arith
  ]
]

-- A date of the calendar.
pub record IsDate (c : Date) : Type 0 where
  pub month_pos : 1 ≤ c.month
  pub month_le : c.month ≤ 12
  pub day_pos : 1 ≤ c.day
  pub day_le : c.day ≤ month_length (is_leap c.year) c.month

pub days_before-civil : (d : ℕ) → days_before (civil d) ≡ d
unfolding days_before civil
days_before-civil d = omega (
  arith,
  year_of_lower d,
  year_of_upper d,
  days_before_year-step (year_of d),
  month_of_bounds (is_leap (year_of d)) (d - days_before_year (year_of d)),
)

month_of-days_before_month :
    (leap : Bool) (m k : ℕ)
    → 1 ≤ m
    → m ≤ 12
    → k < month_length leap m
    → month_of leap (days_before_month leap m + k) ≡ m
unfolding month_of days_before_month month_length
month_of-days_before_month true m k lo hi h = ground arith
month_of-days_before_month false m k lo hi h = ground arith

days_before_month-bound :
    (leap : Bool) (m k : ℕ)
    → 1 ≤ m
    → m ≤ 12
    → k < month_length leap m
    → days_before_month leap m + k < 365 + leap_day leap
unfolding days_before_month month_length
days_before_month-bound true m k lo hi h = ground arith
days_before_month-bound false m k lo hi h = ground arith

pub year_of-days_before : (c : Date) → IsDate c → year_of (days_before c) ≡ c.year
unfolding days_before
year_of-days_before c v = year_of_unique _ c.year (omega arith) (
    omega (
      arith,
      days_before_year-step c.year,
      days_before_month-bound (is_leap c.year) c.month (c.day - 1) v.month_pos v.month_le
          (omega arith),
    ))

days_before-day :
    (c : Date)
    → IsDate c
    → days_before c - days_before_year c.year
      ≡ days_before_month (is_leap c.year) c.month + (c.day - 1)
unfolding days_before
days_before-day c v = omega arith

pub civil-days_before : (c : Date) → IsDate c → civil (days_before c) ≡ c
unfolding civil
civil-days_before c v =
    rw
      (
        year_of-days_before c v,
        days_before-day c v,
        month_of-days_before_month (is_leap c.year) c.month (c.day - 1) v.month_pos v.month_le
            (omega arith),
      )
      (ground arith)

-- The calendar's answer is a date.
pub civil-IsDate : (d : ℕ) → IsDate (civil d)
unfolding civil
civil-IsDate d =
    let b =
      month_of_bounds (is_leap (year_of d)) (d - days_before_year (year_of d))
        (omega (arith, year_of_lower d, year_of_upper d, days_before_year-step (year_of d))) in
    record {
      month_pos = b.0;
      month_le = b.1;
      day_pos = omega arith;
      day_le = omega (arith, b.2, b.3);
    }

next_month-bound :
    (leap : Bool) (m k : ℕ)
    → nat_beq m 12 ≡ false
    → k < month_length leap m
    → days_before_month leap m + k < days_before_month leap (m + 1)
unfolding month_length
next_month-bound leap m k e h = ground arith

first_days : (leap : Bool) → days_before_month leap 1 ≡ 0
unfolding days_before_month
first_days leap = refl

month_length-le : (leap : Bool) (m : ℕ) → month_length leap m ≤ 31
unfolding month_length days_before_month
month_length-le leap m = ground arith

pub first_of_month-near :
    (c : Date) → IsDate c → days_before c ≤ days_before (record c { day = 1 }) + 30
unfolding days_before
first_of_month-near c v = omega (arith, month_length-le (is_leap c.year) c.month, v.day_le)

pub first_of_month-IsDate : (c : Date) → IsDate c → IsDate (record c { day = 1 })
first_of_month-IsDate c v = record {
  month_pos = v.month_pos;
  month_le = v.month_le;
  day_pos = omega arith;
  day_le = omega arith;
}

-- A month starts no later than any day of it, and the next one starts after it.
pub month_bounds :
    (c : Date)
    → IsDate c
    → (days_before (record c { day = 1 }) ≤ days_before c)
      × (days_before c < days_before (next_month (record c { day = 1 })))
unfolding days_before next_month
month_bounds c v = (
  omega arith,
  ground (
    arith,
    first_days (is_leap (c.year + 1)),
    days_before_year-step c.year,
    days_before_month-bound (is_leap c.year) c.month (c.day - 1) v.month_pos v.month_le
        (omega arith),
    next_month-bound (is_leap c.year) c.month (c.day - 1),
    v.day_le,
    v.day_pos,
  ),
)
