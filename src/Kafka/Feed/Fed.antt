-- ===== src/Kafka/Feed/Fed.antt =====
-- What the goroutine of `ConsumeEvents` keeps, in internal/infrastructure/kafka/consumer.go.
use network_actions_aggregat.Prelude.{
  ℕ, ◌+◌, ◌≤◌, ◌≡◌, refl, subst, sym, ◌∙◌, inl, inr, Bool, true, false, Option, none, some, List,
  [], ◌∷◌, ◌++◌, All, arith, length,
}
use mathlib.Core.List.{append-nil}
use network_actions_aggregat.Clock.{Time}
use network_actions_aggregat.Entity.{Event}
use network_actions_aggregat.Entity.Errors.{Error, Result, ok, err}
use network_actions_aggregat.Package.{UuidPackage, TimePackage, JsonPackage}
use network_actions_aggregat.Message.{KafkaEventMessage}
use network_actions_aggregat.Kafka.{Fetched, Consumer, commit, parse_event}
use network_actions_aggregat.Kafka.Safe.{
  IsIn-last, Accounted, Accounted-append, All-map, commit-Accounted, commit-closed,
}
use network_actions_aggregat.Kafka.Feed.{
  Reader, fetching, sending, committing, stopped, Feed, new_feed, after_parse, HasStopped,
  after_send, Feeding, context_done, fetch_failed, fetch, send, stop_sending, commit_message,
}

length-last : (es : List Event) (e : Event) → length (es ++ e ∷ []) ≡ length es + 1
length-last [] e = refl
length-last (x ∷ es) e = omega (arith, length-last es e)

module _ (uuid : UuidPackage) (times : TimePackage) (json : JsonPackage KafkaEventMessage)
    (capacity : ℕ) where
  abbrev Kept : List Event → Fetched → Type 0
  Kept = Accounted uuid times json

  -- What the goroutine has at hand: an event of a message, or a message to commit.
  abbrev pub AtHand : List Event → Reader → Type 0
  AtHand sent fetching = Unit
  AtHand sent (sending m e) = (now : Time) × (parse_event uuid times json now m.value ≡ ok e)
  AtHand sent (committing m) = Accounted uuid times json sent m
  AtHand sent (stopped e) = Unit

  abbrev pub ClosedFor : Reader → Bool → Type 0
  ClosedFor fetching b = b ≡ false
  ClosedFor (sending m e) b = b ≡ false
  ClosedFor (committing m) b = b ≡ false
  ClosedFor (stopped e) b = b ≡ true

  -- Each committed message holds no event or its event was sent; the channel is closed exactly when the
  -- goroutine has returned, which is only after the context is done, and never holds more than its
  -- capacity.
  pub record IsFed (f : Feed) : Type 0 where
    pub accounted : All (Accounted uuid times json f.consumer.sent) f.consumer.committed
    pub at_hand : AtHand f.consumer.sent f.reader
    pub closing : ClosedFor f.reader f.consumer.channel_closed
    pub leaving : HasStopped f.reader → f.canceled ≡ true
    pub bounded : length f.queue ≤ capacity

  pub new-IsFed : IsFed new_feed
  new-IsFed = record {
    accounted = tt;
    at_hand = tt;
    closing = refl;
    leaving = λ h. absurd h;
    bounded = omega arith;
  }

  -- A receive shortens the channel, and the context may become done.
  pub receive-IsFed :
      {f : Feed} (queue : List Event)
      → IsFed f
      → length queue ≤ length f.queue
      → IsFed (record f { queue = queue })
  receive-IsFed queue v h = record {
    accounted = v.accounted;
    at_hand = v.at_hand;
    closing = v.closing;
    leaving = v.leaving;
    bounded = omega (arith, h, v.bounded);
  }

  pub cancel-IsFed : {f : Feed} → IsFed f → IsFed (record f { canceled = true })
  cancel-IsFed v = record {
    accounted = v.accounted;
    at_hand = v.at_hand;
    closing = v.closing;
    leaving = λ h. refl;
    bounded = v.bounded;
  }

  closed_at :
      {f : Feed} (r : Reader) → IsFed f → f.reader ≡ r → ClosedFor r f.consumer.channel_closed
  closed_at {f} r v h = subst (λ s. ClosedFor s f.consumer.channel_closed) h v.closing

  hand_at : {f : Feed} (r : Reader) → IsFed f → f.reader ≡ r → AtHand f.consumer.sent r
  hand_at {f} r v h = subst (AtHand f.consumer.sent) h v.at_hand

  after_parse-AtHand :
      (sent : List Event) (m : Fetched) (now : Time) (r : Result Event)
      → parse_event uuid times json now m.value ≡ r
      → AtHand sent (after_parse m r)
  after_parse-AtHand sent m now (ok e) h = (now, h)
  after_parse-AtHand sent m now (err x) h = (now, inl (x, h))

  after_parse-ClosedFor :
      (m : Fetched) (r : Result Event) (b : Bool) → b ≡ false → ClosedFor (after_parse m r) b
  after_parse-ClosedFor m (ok e) b h = h
  after_parse-ClosedFor m (err x) b h = h

  after_parse-HasStopped : (m : Fetched) (r : Result Event) → HasStopped (after_parse m r) → ⊥
  after_parse-HasStopped m (ok e) h = h
  after_parse-HasStopped m (err x) h = h

  commit-sent : (o : Option Error) (m : Fetched) (c : Consumer) → (commit o m c).sent ≡ c.sent
  commit-sent none m c = refl
  commit-sent (some e) m c = refl

  sent-more :
      (c : Consumer) (e : Event)
      → All (Kept c.sent) c.committed
      → All (Kept (c.sent ++ e ∷ [])) c.committed
  sent-more c e =
      All-map (Kept c.sent) (Kept (c.sent ++ e ∷ [])) c.committed
        (λ x a. Accounted-append uuid times json c.sent e x a)

  sent-Kept :
      (c : Consumer) (m : Fetched) (e : Event)
      → AtHand c.sent (sending m e)
      → Kept (c.sent ++ e ∷ []) m
  sent-Kept c m e (now, h) = (now, inr (e, (h, IsIn-last e c.sent)))

  pub after_send-IsFed :
      {f : Feed} (m : Fetched) (e : Event)
      → f.reader ≡ sending m e
      → IsFed f
      → IsFed (after_send m e f)
  after_send-IsFed {f} m e r v = record {
    accounted = sent-more f.consumer e v.accounted;
    at_hand = sent-Kept f.consumer m e (hand_at (sending m e) v r);
    closing = closed_at (sending m e) v r;
    leaving = λ h. absurd h;
    bounded = v.bounded;
  }

  pub Feeding-IsFed : {f g : Feed} → Feeding uuid times json capacity f g → IsFed f → IsFed g
  Feeding-IsFed (context_done closing r d) v = record {
    accounted = v.accounted;
    at_hand = tt;
    closing = refl;
    leaving = λ h. d;
    bounded = v.bounded;
  }
  Feeding-IsFed (fetch_failed r) v = v
  Feeding-IsFed {f} (fetch m now r) v =
      let o = parse_event uuid times json now m.value in
      record {
        accounted = v.accounted;
        at_hand = after_parse-AtHand f.consumer.sent m now o refl;
        closing = after_parse-ClosedFor m o f.consumer.channel_closed (closed_at fetching v r);
        leaving = λ h. absurd (after_parse-HasStopped m o h);
        bounded = v.bounded;
      }
  Feeding-IsFed {f} (send m e r room) v =
      let w = after_send-IsFed m e r v in
      record {
        accounted = w.accounted;
        at_hand = w.at_hand;
        closing = w.closing;
        leaving = w.leaving;
        bounded = omega (arith, length-last f.queue e, room);
      }
  Feeding-IsFed (stop_sending m e r d) v = record {
    accounted = v.accounted;
    at_hand = tt;
    closing = refl;
    leaving = λ h. d;
    bounded = v.bounded;
  }
  Feeding-IsFed {f} (commit_message m o r) v = record {
    accounted =
        commit-Accounted uuid times json o m f.consumer (hand_at (committing m) v r) v.accounted;
    at_hand = tt;
    closing = commit-closed uuid times json o m f.consumer ∙ closed_at (committing m) v r;
    leaving = λ h. absurd h;
    bounded = v.bounded;
  }

  -- What a step sends is what it appends to the channel; the context stays.
  pub Feeding-Sends :
      {f g : Feed}
      → Feeding uuid times json capacity f g
      → (new : List Event) × ((g.consumer.sent ≡ f.consumer.sent ++ new)
          × ((g.queue ≡ f.queue ++ new) × (g.canceled ≡ f.canceled)))
  Feeding-Sends {f} (context_done closing r d) =
      ([], (sym (append-nil f.consumer.sent), (sym (append-nil f.queue), refl)))
  Feeding-Sends {f} (fetch_failed r) =
      ([], (sym (append-nil f.consumer.sent), (sym (append-nil f.queue), refl)))
  Feeding-Sends {f} (fetch m now r) =
      ([], (sym (append-nil f.consumer.sent), (sym (append-nil f.queue), refl)))
  Feeding-Sends (send m e r room) = (e ∷ [], (refl, (refl, refl)))
  Feeding-Sends {f} (stop_sending m e r d) =
      ([], (sym (append-nil f.consumer.sent), (sym (append-nil f.queue), refl)))
  Feeding-Sends {f} (commit_message m o r) = (
    [],
    (
      commit-sent o m f.consumer ∙ sym (append-nil f.consumer.sent),
      (sym (append-nil f.queue), refl),
    ),
  )
