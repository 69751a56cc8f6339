-- ===== src/Generator/Finished.antt =====
-- The last fields of an event of cmd/generator/generator.go.
use network_actions_aggregat.Prelude.{
  ℕ, ◌+◌, ◌*◌, ◌≤◌, ◌<◌, ◌≡◌, ◌≢◌, refl, inl, inr, true, Bool-cases, Option, none, some, ◌||◌, ◌==◌,
  string_eq, arith,
}
use network_actions_aggregat.Clock.{Time, second, add, zero_nanos}
use network_actions_aggregat.Entity.{
  Event, validate, is_valid, event_type_call_out, event_type_call_in, event_type_sms_sent,
  event_type_sms_received, event_type_data,
}
use network_actions_aggregat.Entity.Validation.{is_valid_iff, validate_iff}
use network_actions_aggregat.Generator.{
  Random, IsRandom, finish_call, finish_sms, finish_data, finish,
}
use network_actions_aggregat.Generator.Drawn.{Gives}

-- What an event is before its last fields are set.
pub record IsStarted (e : Event) : Type 0 where
  pub has_event_id : e.event_id ≢ 0
  pub has_source_id : e.source_id ≢ 0
  pub has_user_id : e.user_id ≢ 0
  pub has_phone : e.phone ≢ ""
  pub has_type : is_valid e.event_type ≡ true
  pub has_start : zero_nanos < e.started_at.nanos
  pub no_duration : e.duration_sec ≡ none
  pub no_up : e.bytes_up ≡ 0
  pub no_down : e.bytes_down ≡ 0

-- The bounds of the last fields, by the type of the event.
pub record IsFinished (e : Event) : Type 0 where
  pub well_formed : validate e ≡ none
  pub ended : (t : Time) × ((e.ended_at ≡ some t) × (e.started_at.nanos ≤ t.nanos))
  pub lasts : (d : ℕ) → e.duration_sec ≡ some d → (1 ≤ d) × (d ≤ 7_259)
  pub up : e.bytes_up ≤ 50_000_999
  pub down : e.bytes_down ≤ 500_000_999

-- An event that has its fields, with an end not before its start, is valid.
with_end :
    (e : Event) (o : Option ℕ) (t : Time) (u w : ℕ)
    → IsStarted e
    → e.started_at.nanos ≤ t.nanos
    → validate (record e { duration_sec = o; ended_at = some t; bytes_up = u; bytes_down = w })
      ≡ none
with_end e o t u w p h = (validate_iff _).1 (record {
  has_event_id = p.has_event_id;
  has_source_id = p.has_source_id;
  has_user_id = p.has_user_id;
  has_phone = p.has_phone;
  has_type = (is_valid_iff e.event_type).0 p.has_type;
  has_start = omega (arith, p.has_start);
  in_order = λ d. h;
})

with_end-IsFinished :
    (e : Event) (o : Option ℕ) (t : Time) (u w : ℕ)
    → IsStarted e
    → e.started_at.nanos ≤ t.nanos
    → ((d : ℕ) → o ≡ some d → (1 ≤ d) × (d ≤ 7_259))
    → u ≤ 50_000_999
    → w ≤ 500_000_999
    → IsFinished (record e { duration_sec = o; ended_at = some t; bytes_up = u; bytes_down = w })
with_end-IsFinished e o t u w p h l up down = record {
  well_formed = with_end e o t u w p h;
  ended = (t, (refl, h));
  lasts = l;
  up = up;
  down = down;
}

some_value : {a b : ℕ} → some a ≡ some b → a ≡ b
some_value e = cc

lasts_within : (n : ℕ) → 1 ≤ n → n ≤ 7_259 → (d : ℕ) → some n ≡ some d → (1 ≤ d) × (d ≤ 7_259)
lasts_within n lo hi d e = (omega (arith, some_value e), omega (arith, some_value e))

module _ {S : Type 0} (r : Random S) (random : IsRandom r) where
  finish_call-Gives : (e : Event) (s : S) → IsStarted e → Gives IsFinished (finish_call r e s)
  unfolding finish_call
  finish_call-Gives e s p =
      let n = (r.below 600 s).0 in
      let lt = random.below-lt 600 s (omega arith) in
      (
        _,
        _,
        (
          refl,
          with_end-IsFinished e (some (n + 1)) (add e.started_at ((n + 1) * second)) e.bytes_up
              e.bytes_down p (omega arith) (lasts_within (n + 1) (omega arith) (omega (arith, lt)))
              (omega (arith, p.no_up)) (omega (arith, p.no_down)),
        ),
      )

  finish_sms-Gives : (e : Event) (s : S) → IsStarted e → Gives IsFinished (finish_sms r e s)
  unfolding finish_sms
  finish_sms-Gives e s p = (
    _,
    _,
    (
      refl,
      with_end-IsFinished e e.duration_sec e.started_at e.bytes_up e.bytes_down p (omega arith)
          (λ d h. absurd (cc (p.no_duration))) (omega (arith, p.no_up)) (omega (arith, p.no_down)),
    ),
  )

  finish_data-Gives : (e : Event) (s : S) → IsStarted e → Gives IsFinished (finish_data r e s)
  unfolding finish_data
  finish_data-Gives e s p =
      let d1 = r.below 7_200 s in
      let d2 = r.below 50_000_000 d1.1 in
      let d3 = r.below 500_000_000 d2.1 in
      (
        _,
        _,
        (
          refl,
          with_end-IsFinished e (some (d1.0 + 60)) (add e.started_at ((d1.0 + 60) * second))
              (d2.0 + 1_000) (d3.0 + 1_000) p (omega arith)
              (lasts_within (d1.0 + 60) (omega arith)
                (omega (arith, random.below-lt 7_200 s (omega arith))))
              (omega (arith, random.below-lt 50_000_000 d1.1 (omega arith)))
              (omega (arith, random.below-lt 500_000_000 d2.1 (omega arith))),
        ),
      )

  pub finish-Gives : (e : Event) (s : S) → IsStarted e → Gives IsFinished (finish r e s)
  unfolding finish is_valid
  finish-Gives e s p =
      elim (Bool-cases
        (e.event_type == event_type_call_out || e.event_type == event_type_call_in)) [
          | inl call ↦ rw call (finish_call-Gives e s p)
          | inr no_call ↦
              elim (Bool-cases
                (e.event_type == event_type_sms_sent || e.event_type == event_type_sms_received)) [
                  | inl sms ↦ rw (no_call, sms) (finish_sms-Gives e s p)
                  | inr no_sms ↦ elim (Bool-cases (e.event_type == event_type_data)) [
                    | inl session ↦ rw (no_call, no_sms, session) (finish_data-Gives e s p)
                    | inr no_data ↦ absurd (ground (arith, p.has_type, no_call, no_sms, no_data))
                  ]
                ]
        ]
