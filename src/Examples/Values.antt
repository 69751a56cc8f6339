-- ===== src/Examples/Values.antt =====
-- Example values: events of one morning, times, ids and their texts.

use network_actions_aggregat.Prelude.{ℕ, zero, suc, ◌+◌, ◌*◌, ◌≡◌, refl, ap, String, none, some}
use network_actions_aggregat.Clock.{Time, east, zero_nanos, hour, day_nanos}
use network_actions_aggregat.Entity.{Event, event_type_call_in}
use network_actions_aggregat.Entity.Errors.{ok}
use network_actions_aggregat.Package.{UuidPackage, ReadsBack}
use network_actions_aggregat.Aggregator.{Config}

-- An id as a text of as many letters, which is read back by counting them.
abbrev letters : ℕ → String
letters zero = String.[]
letters (suc n) = String.◌∷◌ "x" (letters n)

abbrev count : String → ℕ
count String.[] = zero
count (String.◌∷◌ c s) = suc (count s)

abbrev pub uuid : UuidPackage
uuid = record { string = letters; parse = λ s. ok (count s) }

count-letters : (n : ℕ) → count (letters n) ≡ n
count-letters zero = refl
count-letters (suc n) = ap suc (count-letters n)

pub uuid-ReadsBack : ReadsBack uuid
uuid-ReadsBack n = ap ok (count-letters n)

-- `day n` at noon, from the first day of year 1.
abbrev pub noon : ℕ → Time
noon n = record { nanos = zero_nanos + n * day_nanos + 12 * hour; zone = east 0 }

abbrev pub call : ℕ → ℕ → ℕ → Event
call id day seconds = record {
  event_id = id;
  source_id = 1;
  user_id = 2;
  phone = "+79000000000";
  event_type = event_type_call_in;
  started_at = noon day;
  ended_at = none;
  duration_sec = some seconds;
  bytes_up = 10;
  bytes_down = 20;
  meta = none;
  created_at = noon day;
}

abbrev pub config : Config
config = record {
  streaming_flush_interval = 5_000_000_000;
  late_event_threshold = 300_000_000_000;
  dirty_period_channel_size = 2;
}
