-- ===== src/Aggregation/Sums.antt =====
-- The exact sums of a list of events, and the wrapped sums that the 64-bit loops compute.
use network_actions_aggregat.Prelude.{
  ℕ, ◌+◌, ◌%◌, ◌≡◌, Option, none, some, List, [], ◌∷◌, ◌++◌, arith,
}
use network_actions_aggregat.Entity.{Event}
use network_actions_aggregat.Aggregation.{
  Totals, no_totals, int64_mod, update_agg_data, add_duration,
}

abbrev pub duration_of : Option ℕ → ℕ
duration_of none = 0
duration_of (some d) = d

-- What one event adds.
abbrev pub contribution : Event → Totals
contribution e = record {
  count_events = 1;
  sum_duration = duration_of e.duration_sec;
  sum_bytes_up = e.bytes_up;
  sum_bytes_down = e.bytes_down;
}

-- Sums without a bound.
abbrev pub plus : Totals → Totals → Totals
plus a b = record {
  count_events = a.count_events + b.count_events;
  sum_duration = a.sum_duration + b.sum_duration;
  sum_bytes_up = a.sum_bytes_up + b.sum_bytes_up;
  sum_bytes_down = a.sum_bytes_down + b.sum_bytes_down;
}

-- Each sum by its low 64 bits.
abbrev pub wrap : Totals → Totals
wrap a = record {
  count_events = a.count_events % int64_mod;
  sum_duration = a.sum_duration % int64_mod;
  sum_bytes_up = a.sum_bytes_up % int64_mod;
  sum_bytes_down = a.sum_bytes_down % int64_mod;
}

-- The reference: the sums over a list of events.
unfoldable pub sum_of : List Event → Totals
sum_of [] = no_totals
sum_of (e ∷ es) = plus (contribution e) (sum_of es)

duration-wrap :
    (s : ℕ) (o : Option ℕ) → add_duration (s % int64_mod) o ≡ (s + duration_of o) % int64_mod
unfolding add_duration
duration-wrap s none = omega arith
duration-wrap s (some d) = omega arith

-- One round of the loop adds the event's contribution.
pub update_agg_data-wrap :
    (a : Totals) (e : Event) → update_agg_data (wrap a) e ≡ wrap (plus a (contribution e))
unfolding update_agg_data
update_agg_data-wrap a e = ground (arith, duration-wrap a.sum_duration e.duration_sec)

pub plus_assoc : (a b c : Totals) → plus (plus a b) c ≡ plus a (plus b c)
plus_assoc a b c = ground arith

pub plus_comm : (a b : Totals) → plus a b ≡ plus b a
plus_comm a b = ground arith

pub plus_left_comm : (a b c : Totals) → plus a (plus b c) ≡ plus b (plus a c)
plus_left_comm a b c = ground arith

pub plus_zero : (a : Totals) → plus a no_totals ≡ a
plus_zero a = ground arith

pub zero_plus : (a : Totals) → plus no_totals a ≡ a
zero_plus a = ground arith

pub wrap-plus : (a b : Totals) → wrap (plus (wrap a) b) ≡ wrap (plus a b)
wrap-plus a b = ground arith

pub plus-wrap : (a b : Totals) → wrap (plus a (wrap b)) ≡ wrap (plus a b)
plus-wrap a b = ground arith

pub sum_of-append : (xs ys : List Event) → sum_of (xs ++ ys) ≡ plus (sum_of xs) (sum_of ys)
unfolding sum_of
sum_of-append [] ys = ground arith
sum_of-append (x ∷ xs) ys = ground (arith, sum_of-append xs ys)

pub Totals-set : IsSet Totals
Totals-set = hlevel
