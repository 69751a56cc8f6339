-- ===== src/Examples/Pools.antt =====
-- The theorem on the ingest workers, at two workers and two calls.
use network_actions_aggregat.Prelude.{
  ◌≡◌, refl, sym, ap, ◌∙◌, Bool, false, ◌||◌, none, List, [], ◌∷◌, ◌++◌, arith,
}
use network_actions_aggregat.Entity.{Event, validate, is_valid, has_duration, ends_early}
use network_actions_aggregat.Verifier.Tracking.{has_id}
use network_actions_aggregat.LoadTest.Sending.Outcome.{has_id-append}
use network_actions_aggregat.Ingest.{
  Config, Contexts, received, closed, working, finished, round, save_rest, take_event,
  save_batch_with_retry, retry_loop,
}
use network_actions_aggregat.Ingest.Retry.{IsAtomic}
use network_actions_aggregat.Ingest.Delivery.{Growth}
use network_actions_aggregat.Ingest.Pool.{Pool, new_pool, Run, here, next, take_round}
use network_actions_aggregat.Ingest.Pool.Saved.{process_events-Sound}
use network_actions_aggregat.Examples.Loads.{memory}
use network_actions_aggregat.Examples.Values.{call}

pub memory-IsAtomic : IsAtomic memory
memory-IsAtomic = λ ctx es db db' e h. absurd (cc (ap (λ r. r.1) h))

pub or_nil : (b : Bool) → (b || has_id [] 7) ≡ b
or_nil b = ground arith

pub or_append :
    (b : Bool) (es fs : List Event)
    → (b || has_id (es ++ fs) 7) ≡ ((b || has_id es 7) || has_id fs 7)
or_append b es fs = ground (arith, has_id-append es fs 7)

-- Whether the call 7 is stored.
abbrev pub stores_seven : Growth memory Bool
stores_seven = record {
  content = λ db. has_id db 7;
  merge = λ b es. b || has_id es 7;
  merge-nil = or_nil;
  merge-append = or_append;
  content-batch_insert = λ ctx es db db' h. ap (λ r. has_id r.0 7) (sym h) ∙ has_id-append db es 7;
}

pub seven_comm :
    (b : Bool) (es fs : List Event)
    → ((b || has_id es 7) || has_id fs 7) ≡ ((b || has_id fs 7) || has_id es 7)
seven_comm b es fs = ground arith

abbrev pub pool_config : Config
pool_config = record {
  batch_size = 2;
  batch_timeout = 5_000_000_000;
  workers_count = 2;
  retry_attempts = 1;
  retry_delay = 0;
}

abbrev pub open_contexts : Contexts
open_contexts = record { waits = λ n. none; calls = λ n. none }

-- Each worker has received a call.
abbrev one_taken : Pool (List Event)
one_taken = record {
  workers = working (call 7 7 60 ∷ []) ∷ working [] ∷ [];
  db = [];
  first_error = none;
  taken = call 7 7 60 ∷ [];
}

abbrev both_taken : Pool (List Event)
both_taken = record {
  workers = working (call 7 7 60 ∷ []) ∷ working (call 8 7 30 ∷ []) ∷ [];
  db = [];
  first_error = none;
  taken = call 7 7 60 ∷ call 8 7 30 ∷ [];
}

-- The second worker has returned, and then both have.
abbrev one_done : Pool (List Event)
one_done = record both_taken {
  workers = working (call 7 7 60 ∷ []) ∷ finished none ∷ [];
  db = call 8 7 30 ∷ [];
}

abbrev both_done : Pool (List Event)
both_done = record one_done {
  workers = finished none ∷ finished none ∷ [];
  db = call 8 7 30 ∷ call 7 7 60 ∷ [];
}

abbrev Reached : Pool (List Event) → Type 0
Reached p = Run memory pool_config [] p

taken_run : Reached both_taken
unfolding new_pool round validate is_valid has_duration ends_early take_event
taken_run =
    next {p = one_taken}
      (next {p = new_pool pool_config []} here (
        take_round {p = new_pool pool_config []} [] [] (working [] ∷ [])
          (received (call 7 7 60) open_contexts) (working (call 7 7 60 ∷ [])) [] refl refl))
      (take_round {p = one_taken} (working (call 7 7 60 ∷ []) ∷ []) [] []
        (received (call 8 7 30) open_contexts) (working (call 8 7 30 ∷ [])) [] refl refl)

pool_run : Reached both_done
unfolding round save_rest save_batch_with_retry retry_loop
pool_run =
    next {p = one_done}
      (next {p = both_taken} taken_run (
        take_round {p = both_taken} (working (call 7 7 60 ∷ []) ∷ []) (call 8 7 30 ∷ []) []
          (closed open_contexts) (finished none) (call 8 7 30 ∷ []) refl refl))
      (take_round {p = one_done} [] (call 7 7 60 ∷ []) (finished none ∷ []) (closed open_contexts)
        (finished none) (call 8 7 30 ∷ call 7 7 60 ∷ []) refl refl)

process_events-Sound_example : has_id both_done.db 7 ≡ (false || has_id both_done.taken 7)
process_events-Sound_example =
    process_events-Sound memory pool_config memory-IsAtomic stores_seven seven_comm [] both_done
      pool_run (tt, (tt, tt)) refl
