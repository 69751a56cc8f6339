-- ===== src/Generator/Laws.antt =====
-- What the generator makes: valid events within documented bounds, and no panic.
use network_actions_aggregat.Prelude.{
  ℕ, zero, suc, ◌+◌, ◌*◌, ◌<◌, ◌≡◌, ◌≢◌, refl, sym, ap, ◌∙◌, String, List, [], ◌∷◌, length, All,
  string_eq, arith,
}
use network_actions_aggregat.Clock.{Time, second, zero_nanos}
use network_actions_aggregat.Entity.{Uuid}
use network_actions_aggregat.Generator.{
  Random, IsRandom, EventGenerator, new_users, new_event_generator, generate_event, generate_batch,
  phone_text,
}
use network_actions_aggregat.Generator.Drawn.{
  Gives, get-Gives, intn-Gives, random_event_type-Gives, generate_meta-Gives,
}
use network_actions_aggregat.Generator.Finished.{IsFinished, finish-Gives}

-- A generator with users, as `NewEventGenerator` makes it.
pub record IsGenerator (g : EventGenerator) : Type 0 where
  pub source : g.source_id ≢ 0
  pub users : All (λ id. id ≢ 0) g.user_ids
  pub phones : All (λ p. p ≢ "") g.phone_numbers
  pub paired : length g.phone_numbers ≡ length g.user_ids

phone_text-ne : (n : ℕ) → phone_text n ≢ ""
unfolding phone_text
phone_text-ne n = λ h. cc

module _ {S : Type 0} (r : Random S) (random : IsRandom r) where
  abbrev pub AreUsers : ℕ → List Uuid × List String → Type 0
  AreUsers n u =
      All (λ id. id ≢ 0) u.0 × (All (λ p. p ≢ "") u.1 × ((length u.0 ≡ n) × (length u.1 ≡ n)))

  new_users-Gives : (n : ℕ) (s : S) → Gives (AreUsers n) (new_users r n s)
  unfolding new_users
  new_users-Gives zero s = (_, _, (refl, (tt, (tt, (refl, refl)))))
  new_users-Gives (suc n) s =
      let d1 = r.new_uuid s in
      let d2 = r.below 10_000_000_000 d1.1 in
      let (u, s', (e, (ids, (phones, (l, k))))) = new_users-Gives n d2.1 in
      rw e (
        _,
        _,
        (refl, ((random.new_uuid-ne s, ids), ((phone_text-ne d2.0, phones), (ap suc l, ap suc k)))),
      )

  -- `NewEventGenerator` never panics, and its generator has the given number of users.
  pub new_event_generator-Gives :
      (n : ℕ) (s : S)
      → Gives (λ g. IsGenerator g × (length g.user_ids ≡ n)) (new_event_generator r n s)
  unfolding new_event_generator
  new_event_generator-Gives n s =
      let (u, s', (e, (ids, (phones, (l, k))))) = new_users-Gives n s in
      rw e (
        _,
        _,
        (
          refl,
          (
            record {
              source = random.new_uuid-ne s';
              users = ids;
              phones = phones;
              paired = k ∙ sym l;
            },
            l,
          ),
        ),
      )

  -- Every event of a generator with at least one user is valid, ends not before it starts, lasts from 1
  -- to 7259 seconds if it has a duration, and has sent and received bytes within their bounds; and making
  -- it never panics. The clock is more than an hour after the zero time.
  pub generate_event-Gives :
      (text : ℕ → String) (now created : Time) (g : EventGenerator) (s : S)
      → IsGenerator g
      → 0 < length g.user_ids
      → zero_nanos + 3_600 * second < now.nanos
      → Gives IsFinished (generate_event r text now created g s)
  unfolding generate_event
  generate_event-Gives text now created g s v users late =
      let (i, s1, (e1, lt)) = intn-Gives r random (length g.user_ids) s users in
      let (t, s2, (e2, valid)) = random_event_type-Gives r random s1 in
      let d = r.new_uuid s2 in
      let (user, (e3, user_ne)) = get-Gives (λ id. id ≢ 0) g.user_ids i d.1 v.users lt in
      let (phone, (e4, phone_ne)) =
        get-Gives (λ p. p ≢ "") g.phone_numbers i d.1 v.phones (omega (arith, lt, v.paired)) in
      let ago = r.below 3_600 d.1 in
      let (m, s3, (e5, any)) = generate_meta-Gives r random text ago.1 in
      rw (e1, e2, e3, e4, e5)
        (finish-Gives r random _ s3 (record {
          has_event_id = random.new_uuid-ne s2;
          has_source_id = v.source;
          has_user_id = user_ne;
          has_phone = phone_ne;
          has_type = valid;
          has_start = omega (arith, late, random.below-lt 3_600 d.1 (omega arith));
          no_duration = refl;
          no_up = refl;
          no_down = refl;
        }))

  -- The readings of the clock for a batch are more than an hour after the zero time.
  abbrev pub AreLate : List (Time × Time) → Type 0
  AreLate = All (λ (t : Time × Time). zero_nanos + 3_600 * second < t.0.nanos)

  -- A batch has the size that was asked for, and its events are valid and within their bounds, from a
  -- generator with a user and with readings of the clock that are an hour after the zero time.
  pub generate_batch-Gives :
      (text : ℕ → String) (times : List (Time × Time)) (g : EventGenerator) (s : S)
      → IsGenerator g
      → 0 < length g.user_ids
      → AreLate times
      → Gives
          (λ es. All IsFinished es × (length es ≡ length times))
          (generate_batch r text times g s)
  unfolding generate_batch
  generate_batch-Gives text [] g s v users late = (_, _, (refl, (tt, refl)))
  generate_batch-Gives text ((now, created) ∷ times) g s v users late =
      let (e, s1, (h, f)) = generate_event-Gives text now created g s v users late.0 in
      let (es, s2, (k, (fs, l))) = generate_batch-Gives text times g s1 v users late.1 in
      rw (h, k) (_, _, (refl, ((f, fs), ap suc l)))
