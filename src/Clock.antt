-- ===== src/Clock.antt =====
-- Go's `time.Time` as the use cases need it: an instant in nanoseconds with a fixed zone offset, the
-- truncation to a day, and the civil calendar that `Year`, `Month`, `time.Date` and `Format` read.
pub mod Civil
pub mod Laws
pub mod Months
pub mod Text
use Prim.Native.Nat.{ℕ, ◌+◌, ◌-◌, ◌*◌, ◌/◌, ◌%◌}
use mathlib.Core.Bool.{Bool}
use network_actions_aggregat.Prelude.{ltb, nat_beq, if◌then◌else◌}
use Civil.{Date, civil, days_before, next_month}

-- The offset of `Location()` in seconds.
pub data Zone : Type 0 where
  east : ℕ → Zone
  west : ℕ → Zone

-- `nanos` counts from the start of the year -399 in UTC, 400 years before Go's zero time.
pub record Time : Type 0 where
  pub nanos : ℕ
  pub zone : Zone

abbrev pub second : ℕ
second = 1_000_000_000

abbrev pub minute : ℕ
minute = 60_000_000_000

abbrev pub hour : ℕ
hour = 3_600_000_000_000

abbrev pub day_nanos : ℕ
day_nanos = 86_400_000_000_000

-- `time.Time{}`: the start of the year 1.
abbrev pub zero_nanos : ℕ
zero_nanos = 146_097 * 86_400_000_000_000

unfoldable pub is_zero : Time → Bool
is_zero t = nat_beq t.nanos zero_nanos

-- `a.Before(b)`.
abbrev pub before : Time → Time → Bool
before a b = ltb a.nanos b.nanos

-- `t.Truncate(24 * time.Hour)` works on the instant, whatever the zone.
unfoldable pub truncate_day : Time → Time
truncate_day t = record t { nanos = t.nanos - t.nanos % day_nanos }

-- `t.Add(d)`.
abbrev pub add : Time → ℕ → Time
add t d = record t { nanos = t.nanos + d }

abbrev pub to_local : Zone → ℕ → ℕ
to_local (east s) n = n + s * second
to_local (west s) n = n - s * second

abbrev pub from_local : Zone → ℕ → ℕ
from_local (east s) n = n - s * second
from_local (west s) n = n + s * second

-- The wall clock of the time's own zone.
abbrev pub local_nanos : Time → ℕ
local_nanos t = to_local t.zone t.nanos

-- `t.Date()`.
unfoldable pub date_of : Time → Date
date_of t = civil (local_nanos t / day_nanos)

-- `time.Date(year, month, day, 0, 0, 0, 0, zone)`.
unfoldable pub midnight : Date → Zone → Time
midnight d z = record { nanos = from_local z (days_before d * day_nanos); zone = z }

-- `time.Date(t.Year(), t.Month(), 1, 0, 0, 0, 0, t.Location())`.
unfoldable pub month_start : Time → Time
unfolding date_of midnight
month_start t = midnight (record (date_of t) { day = 1 }) t.zone

-- `t.AddDate(0, 1, 0)`, with the time of the day kept.
unfoldable pub add_month : Time → Time
unfolding date_of
add_month t = record t {
  nanos =
      from_local t.zone
        (days_before (next_month (date_of t)) * day_nanos + local_nanos t % day_nanos);
}
