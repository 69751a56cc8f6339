-- ===== src/Examples/Dates.antt =====
-- The theorems on dates at a noon of the first January.
use network_actions_aggregat.Prelude.{◌≡◌, ◌≤◌, ◌<◌, ◌%◌, arith}
use network_actions_aggregat.Clock.{local_nanos, day_nanos, month_start, add_month, date_of}
use network_actions_aggregat.Clock.Months.{IsRegular, month_window}
use network_actions_aggregat.Examples.Values.{noon}

noon-IsRegular : IsRegular (noon 7)
noon-IsRegular = record { offset = omega arith; late = omega arith }

month_window_example :
    (local_nanos (month_start (noon 7)) ≤ local_nanos (noon 7))
    × (local_nanos (noon 7) < local_nanos (add_month (month_start (noon 7))))
    × (local_nanos (month_start (noon 7)) % day_nanos ≡ 0)
    × (date_of (month_start (noon 7)) ≡ record (date_of (noon 7)) { day = 1 })
month_window_example = month_window (noon 7) noon-IsRegular
