-- ===== src/Aggregator/Invariant.antt =====
-- What holds of the aggregator between two steps of its goroutines, in any order: the channel of dirty
-- periods, and the table of processed events.
use network_actions_aggregat.Prelude.{
  ℕ, ◌≤◌, ◌<◌, Option, none, some, List, [], ◌∷◌, arith, length, length-append, string_eq, foldl,
  Bool-cases, inl, inr,
}
use network_actions_aggregat.Dict.{Distinct, insert-Distinct, retain-Distinct}
use network_actions_aggregat.Clock.{Time}
use network_actions_aggregat.Entity.{Event}
use network_actions_aggregat.Package.{UuidPackage}
use network_actions_aggregat.Aggregator.{
  Config, DirtyPeriod, Aggregator, new, is_late_event, mark_dirty, add_to_buffer, is_duplicate,
  mark_processed, process_event, cleanup_processed_events, receive_from, receive_period, try_send,
  period_of,
}

pub record Inv (uc : Aggregator) : Type 0 where
  pub bounded : length uc.dirty_periods ≤ uc.channel_size
  pub open_channel : 0 < uc.channel_size
  pub distinct : Distinct uc.processed_events

-- One step of a goroutine, with what it reads from the clock: the handling of an event, the swap of the
-- buffers at a flush, the receive of a dirty period, a cleanup.
pub data Operation : Type 0 where
  handle : Time → Time → Event → Operation
  swap receive : Operation
  cleanup : Time → Operation

abbrev received : Aggregator → Option (DirtyPeriod × Aggregator) → Aggregator
received uc none = uc
received uc (some (p, uc')) = uc'

unfoldable pub step : UuidPackage → Aggregator → Operation → Aggregator
step uuid uc (handle marked seen e) = process_event uuid marked seen uc e
step uuid uc swap = record uc { day_buffer = []; month_buffer = [] }
step uuid uc receive = received uc (receive_period uc)
step uuid uc (cleanup now) = cleanup_processed_events now uc

new-Inv : (config : Config) → Inv (new config)
unfolding new
new-Inv config = record { bounded = ground arith; open_channel = ground arith; distinct = tt }

length-try_send :
    (size : ℕ) (p : DirtyPeriod) (channel : List DirtyPeriod)
    → length channel ≤ size
    → length (try_send size p channel) ≤ size
unfolding try_send
length-try_send size p channel h = ground (arith, length-append channel (p ∷ []))

mark_dirty-Inv : (uc : Aggregator) (e : Event) → Inv uc → Inv (mark_dirty uc e)
unfolding mark_dirty
mark_dirty-Inv uc e v = record {
  bounded = length-try_send uc.channel_size (period_of e) uc.dirty_periods v.bounded;
  open_channel = v.open_channel;
  distinct = v.distinct;
}

mark_processed-Inv :
    (uuid : UuidPackage) (now : Time) (uc : Aggregator) (e : Event)
    → Inv uc
    → Inv (mark_processed uuid now uc e)
unfolding mark_processed
mark_processed-Inv uuid now uc e v = record {
  bounded = v.bounded;
  open_channel = v.open_channel;
  distinct = insert-Distinct (uuid.string e.event_id) now uc.processed_events v.distinct;
}

add_to_buffer-Inv : (uc : Aggregator) (e : Event) → Inv uc → Inv (add_to_buffer uc e)
unfolding add_to_buffer
add_to_buffer-Inv uc e v = record {
  bounded = v.bounded;
  open_channel = v.open_channel;
  distinct = v.distinct;
}

process_event-Inv :
    (uuid : UuidPackage) (marked seen : Time) (uc : Aggregator) (e : Event)
    → Inv uc
    → Inv (process_event uuid marked seen uc e)
unfolding process_event
process_event-Inv uuid marked seen uc e v =
    let uc' = mark_processed uuid marked uc e in
    let v' : Inv uc' = mark_processed-Inv uuid marked uc e v in
    elim (Bool-cases (is_duplicate uuid uc e)) [
      | inl dup ↦ rw dup v
      | inr fresh ↦ rw fresh (
          add_to_buffer-Inv _ e (elim (Bool-cases (is_late_event seen uc' e)) [
            | inl late ↦ rw late (mark_dirty-Inv uc' e v')
            | inr in_time ↦ rw in_time v'
          ]))
    ]

receive_from-Inv :
    (uc : Aggregator) (periods : List DirtyPeriod)
    → length periods ≤ uc.channel_size
    → Inv uc
    → Inv (received uc (receive_from uc periods))
unfolding receive_from
receive_from-Inv uc [] h v = v
receive_from-Inv uc (p ∷ rest) h v = record {
  bounded = omega arith;
  open_channel = v.open_channel;
  distinct = v.distinct;
}

receive-Inv : (uc : Aggregator) → Inv uc → Inv (received uc (receive_period uc))
unfolding receive_period
receive-Inv uc v = receive_from-Inv uc uc.dirty_periods v.bounded v

step-Inv : (uuid : UuidPackage) (uc : Aggregator) (op : Operation) → Inv uc → Inv (step uuid uc op)
unfolding step cleanup_processed_events
step-Inv uuid uc (handle marked seen e) v = process_event-Inv uuid marked seen uc e v
step-Inv uuid uc swap v = record {
  bounded = v.bounded;
  open_channel = v.open_channel;
  distinct = v.distinct;
}
step-Inv uuid uc receive v = receive-Inv uc v
step-Inv uuid uc (cleanup now) v = record {
  bounded = v.bounded;
  open_channel = v.open_channel;
  distinct = retain-Distinct _ uc.processed_events v.distinct;
}

foldl-Inv :
    (uuid : UuidPackage) (ops : List Operation) (uc : Aggregator)
    → Inv uc
    → Inv (foldl (step uuid) uc ops)
foldl-Inv uuid [] uc v = v
foldl-Inv uuid (op ∷ ops) uc v = foldl-Inv uuid ops (step uuid uc op) (step-Inv uuid uc op v)

-- Whatever the goroutines do and in whatever order, the channel never holds more periods than its
-- capacity, which is positive for every configuration, and no event id is recorded twice.
pub run-Inv :
    (uuid : UuidPackage) (config : Config) (ops : List Operation)
    → Inv (foldl (step uuid) (new config) ops)
run-Inv uuid config ops = foldl-Inv uuid ops (new config) (new-Inv config)
