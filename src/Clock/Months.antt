-- ===== src/Clock/Months.antt =====
-- The month of a time: `time.Date(year, month, 1, …)` and `AddDate(0, 1, 0)` as the use cases call them.
use Prim.Native.Nat.{ℕ, ◌+◌, ◌*◌, ◌/◌, ◌%◌, ◌≤◌, ◌<◌}
use mathlib.Core.Path.{◌≡◌, refl, ap, ◌∙◌}
use native.Mathlib.Omega.{arith}
use network_actions_aggregat.Clock.Civil.{Date, civil, days_before, next_month}
use network_actions_aggregat.Clock.Laws.{
  days_before-civil, civil-days_before, civil-IsDate, month_bounds, first_of_month-near,
  first_of_month-IsDate,
}
use network_actions_aggregat.Clock.{
  Zone, east, west, Time, day_nanos, to_local, from_local, local_nanos, date_of, month_start,
  add_month,
}

-- The zone's offset is at most a day, and the time is 40 days or more after the first instant.
abbrev pub IsOffset : Zone → Type 0
IsOffset (east s) = s ≤ 86_400
IsOffset (west s) = s ≤ 86_400

pub record IsRegular (t : Time) : Type 0 where
  pub offset : IsOffset t.zone
  pub late : 40 * day_nanos ≤ t.nanos

to_local-from_local :
    (z : Zone) (n : ℕ) → IsOffset z → 2 * day_nanos ≤ n → to_local z (from_local z n) ≡ n
to_local-from_local (east s) n o h = omega arith
to_local-from_local (west s) n o h = omega arith

local_late-zone :
    (z : Zone) (n : ℕ) → IsOffset z → 40 * day_nanos ≤ n → 39 * day_nanos ≤ to_local z n
local_late-zone (east s) n o h = omega arith
local_late-zone (west s) n o h = omega arith

local_late : (t : Time) → IsRegular t → 39 * day_nanos ≤ local_nanos t
local_late t r = local_late-zone t.zone t.nanos r.offset r.late

-- The first day of the month of a day.
first : ℕ → Date
first d = record (civil d) { day = 1 }

first-le : (d : ℕ) → days_before (first d) ≤ d
unfolding first
first-le d = omega (arith, (month_bounds (civil d) (civil-IsDate d)).0, days_before-civil d)

first-near : (d : ℕ) → d ≤ days_before (first d) + 30
unfolding first
first-near d = omega (arith, first_of_month-near (civil d) (civil-IsDate d), days_before-civil d)

civil-first : (d : ℕ) → civil (days_before (first d)) ≡ first d
unfolding first
civil-first d = civil-days_before (first d) (first_of_month-IsDate (civil d) (civil-IsDate d))

local_month_start :
    (t : Time)
    → IsRegular t
    → local_nanos (month_start t) ≡ days_before (first (local_nanos t / day_nanos)) * day_nanos
unfolding month_start first
local_month_start t r =
    to_local-from_local t.zone _ r.offset
      (omega (arith, local_late t r, first-near (local_nanos t / day_nanos)))

pub date_of-month_start :
    (t : Time) → IsRegular t → date_of (month_start t) ≡ record (date_of t) { day = 1 }
unfolding date_of first
date_of-month_start t r =
    let d = local_nanos t / day_nanos in
    let e : local_nanos (month_start t) / day_nanos ≡ days_before (first d) =
      omega (arith, local_month_start t r) in
    ap civil e ∙ civil-first d

local_add_month :
    (u : Time)
    → IsOffset u.zone
    → 2 ≤ days_before (next_month (date_of u))
    → local_nanos (add_month u)
      ≡ days_before (next_month (date_of u)) * day_nanos + local_nanos u % day_nanos
unfolding add_month date_of
local_add_month u o h = to_local-from_local u.zone _ o (omega arith)

month_start-zone : (t : Time) → (month_start t).zone ≡ t.zone
unfolding month_start
month_start-zone t = refl

next-gt : (d : ℕ) → d < days_before (next_month (first d))
unfolding first
next-gt d = omega (arith, (month_bounds (civil d) (civil-IsDate d)).1, days_before-civil d)

month_start-next :
    (t : Time)
    → IsRegular t
    → local_nanos t / day_nanos < days_before (next_month (date_of (month_start t)))
unfolding date_of first
month_start-next t r = rw (date_of-month_start t r) (next-gt (local_nanos t / day_nanos))

-- The month of a time, from `time.Date(year, month, 1, …)` to `AddDate(0, 1, 0)` after it, starts at a
-- midnight of the zone's wall clock, holds the time, and begins on day 1 of the time's month.
pub month_window :
    (t : Time)
    → IsRegular t
    → (local_nanos (month_start t) ≤ local_nanos t)
      × (local_nanos t < local_nanos (add_month (month_start t)))
      × (local_nanos (month_start t) % day_nanos ≡ 0)
      × (date_of (month_start t) ≡ record (date_of t) { day = 1 })
month_window t r = (
  omega (arith, local_month_start t r, first-le (local_nanos t / day_nanos)),
  omega (
    arith,
    month_start-next t r,
    local_late t r,
    local_add_month (month_start t) (rw month_start-zone r.offset)
        (omega (arith, month_start-next t r, local_late t r)),
  ),
  omega (arith, local_month_start t r),
  date_of-month_start t r,
)
