-- ===== src/Kafka/Safe.antt =====
-- What the loop of `ConsumeEvents` of internal/infrastructure/kafka/consumer.go commits.
use network_actions_aggregat.Prelude.{
  ◌≡◌, refl, ◌∙◌, ◌⊎◌, inl, inr, Bool, true, false, Option, none, some, List, [], ◌∷◌, ◌++◌, All,
  All-append,
}
use network_actions_aggregat.Clock.{Time}
use network_actions_aggregat.Entity.{Event}
use network_actions_aggregat.Entity.Errors.{Error, Result, ok, err}
use network_actions_aggregat.Package.{UuidPackage, TimePackage, JsonPackage, Bytes}
use network_actions_aggregat.Message.{KafkaEventMessage}
use network_actions_aggregat.Kafka.{
  Fetched, Round, done, canceled, failed, fetched, Consumer, new_run, Loop, consuming, returned,
  commit, hand_over, parse_event, handle, consume_round, consume_from, consume_events,
}

abbrev pub IsIn : Event → List Event → Type 0
IsIn e [] = ⊥
IsIn e (x ∷ xs) = (x ≡ e) ⊎ IsIn e xs

IsIn-append : (e : Event) (xs ys : List Event) → IsIn e xs → IsIn e (xs ++ ys)
IsIn-append e (x ∷ xs) ys (inl h) = inl h
IsIn-append e (x ∷ xs) ys (inr h) = inr (IsIn-append e xs ys h)
IsIn-append e [] ys h = absurd h

pub IsIn-last : (e : Event) (xs : List Event) → IsIn e (xs ++ e ∷ [])
IsIn-last e [] = inl refl
IsIn-last e (x ∷ xs) = inr (IsIn-last e xs)

pub All-map {ℓ κ κ'} :
    {A : Type ℓ} (P : A → Type κ) (Q : A → Type κ') (xs : List A)
    → ((a : A) → P a → Q a)
    → All P xs
    → All Q xs
All-map P Q [] f h = tt
All-map P Q (x ∷ xs) f h = (f x h.0, All-map P Q xs f h.1)

module _ (uuid : UuidPackage) (times : TimePackage) (json : JsonPackage KafkaEventMessage) where
  abbrev parse : Time → Bytes → Result Event
  parse = parse_event uuid times json

  -- A message that holds no event, or one that is in the channel.
  abbrev pub Accounted : List Event → Fetched → Type 0
  Accounted sent m =
      (now : Time) × (((x : Error) × (parse now m.value ≡ err x))
        ⊎ ((e : Event) × ((parse now m.value ≡ ok e) × IsIn e sent)))

  pub Accounted-append :
      (sent : List Event) (e : Event) (m : Fetched)
      → Accounted sent m
      → Accounted (sent ++ e ∷ []) m
  Accounted-append sent e m (now, inl bad) = (now, inl bad)
  Accounted-append sent e m (now, inr (x, (p, i))) =
      (now, inr (x, (p, IsIn-append x sent (e ∷ []) i)))

  -- The channel is closed exactly once the loop has returned.
  abbrev pub ClosedWhen : Loop → Bool → Type 0
  ClosedWhen consuming b = b ≡ false
  ClosedWhen (returned r) b = b ≡ true

  pub record IsSafe (s : Consumer × Loop) : Type 0 where
    pub accounted : All (Accounted s.0.sent) s.0.committed
    pub closing : ClosedWhen s.1 s.0.channel_closed

  pub commit-Accounted :
      (o : Option Error) (m : Fetched) (c : Consumer)
      → Accounted c.sent m
      → All (Accounted c.sent) c.committed
      → All (Accounted (commit o m c).sent) (commit o m c).committed
  commit-Accounted none m c a h = All-append (Accounted c.sent) c.committed (m ∷ []) h (a, tt)
  commit-Accounted (some e) m c a h = h

  pub commit-closed :
      (o : Option Error) (m : Fetched) (c : Consumer)
      → (commit o m c).channel_closed ≡ c.channel_closed
  commit-closed none m c = refl
  commit-closed (some e) m c = refl

  handle-IsSafe :
      (m : Fetched) (now : Time) (r : Result Event) (stop : Bool) (o : Option Error) (c : Consumer)
      → parse now m.value ≡ r
      → IsSafe (c, consuming)
      → IsSafe (handle uuid times json m r stop o c)
  unfolding handle
  handle-IsSafe m now (err x) stop o c p v = record {
    accounted = commit-Accounted o m c (now, inl (x, p)) v.accounted;
    closing = commit-closed o m c ∙ v.closing;
  }
  handle-IsSafe m now (ok e) true o c p v = record { accounted = v.accounted; closing = refl }
  handle-IsSafe m now (ok e) false o c p v = record {
    accounted =
        commit-Accounted o m (hand_over e c) (now, inr (e, (p, IsIn-last e c.sent)))
          (All-map (Accounted c.sent) (Accounted (c.sent ++ e ∷ [])) c.committed
            (λ x a. Accounted-append c.sent e x a) v.accounted);
    closing = commit-closed o m (hand_over e c) ∙ v.closing;
  }

  round-IsSafe :
      (closing : Option Error) (x : Round) (c : Consumer)
      → IsSafe (c, consuming)
      → IsSafe (consume_round uuid times json closing x c)
  unfolding consume_round
  round-IsSafe closing done c v = record { accounted = v.accounted; closing = refl }
  round-IsSafe closing canceled c v = record { accounted = v.accounted; closing = refl }
  round-IsSafe closing (failed e) c v = v
  round-IsSafe closing (fetched m now stop o) c v =
      handle-IsSafe m now (parse now m.value) stop o c refl v

  consume_from-IsSafe :
      (closing : Option Error) (xs : List Round) (s : Consumer × Loop)
      → IsSafe s
      → IsSafe (consume_from uuid times json closing xs s)
  unfolding consume_from
  consume_from-IsSafe closing [] s v = v
  consume_from-IsSafe closing (x ∷ xs) (c, returned r) v = v
  consume_from-IsSafe closing (x ∷ xs) (c, consuming) v =
      consume_from-IsSafe closing xs _ (round-IsSafe closing x c v)

  -- At every point of the loop each committed message either holds no event or its event was handed to
  -- the channel before, and the channel is closed exactly once the loop has returned.
  pub consume_events-IsSafe :
      (closing : Option Error) (xs : List Round)
      → IsSafe (consume_events uuid times json closing xs)
  unfolding consume_events
  consume_events-IsSafe closing xs =
      consume_from-IsSafe closing xs (new_run, consuming)
        (record { accounted = tt; closing = refl })
