-- ===== src/Generator.antt =====
-- cmd/generator/generator.go: random events. The source of random numbers and ids is a parameter over
-- its own state; a call that panics gives `none`.
pub mod Drawn
pub mod Finished
pub mod Laws
use Prim.Native.Char.{Char}
use network_actions_aggregat.Prelude.{
  ℕ, zero, suc, ◌+◌, ◌-◌, ◌*◌, ◌/◌, ◌%◌, ◌<◌, ◌≢◌, String, Bool, true, false, Option, none, some,
  List, [], ◌∷◌, length, ltb, nat_beq, ◌||◌, ◌==◌, string_eq, if◌then◌else◌,
}
use network_actions_aggregat.Dict.{Dict}
use network_actions_aggregat.Clock.{Time, second, add}
use network_actions_aggregat.Entity.{
  Event, EventType, Uuid, event_type_call_out, event_type_call_in, event_type_sms_sent,
  event_type_sms_received, event_type_data,
}
use network_actions_aggregat.Entity.Json.{Json, num, str, bool, Meta}

-- `Intn` and `Int63n` of `math/rand`, and `uuid.New`, over the state of the source.
pub record Random (S : Type 0) : Type 0 where
  pub below : ℕ → S → ℕ × S
  pub new_uuid : S → Uuid × S

-- The documented behaviour: a number is below its bound, and a random id is not the nil one.
pub record IsRandom {S : Type 0} (r : Random S) : Type 0 where
  pub below-lt : (n : ℕ) (s : S) → 0 < n → (r.below n s).0 < n
  pub new_uuid-ne : (s : S) → (r.new_uuid s).0 ≢ 0

-- A computation that draws from the source, or panics.
abbrev pub Draw : Type 0 → Type 0 → Type 0
Draw S A = S → Option (A × S)

abbrev pub then_draw : {S A B : Type 0} → Option (A × S) → (A → Draw S B) → Option (B × S)
then_draw none f = none
then_draw (some (a, s)) f = f a s

infixl 5 ◌>>=◌
abbrev pub ◌>>=◌ : {S A B : Type 0} → Draw S A → (A → Draw S B) → Draw S B
(m >>= f) s = then_draw (m s) f

abbrev pub give : {S A : Type 0} → A → Draw S A
give a s = some (a, s)

-- An index out of range panics.
abbrev pub get : {S A : Type 0} → List A → ℕ → Draw S A
get [] n s = none
get (x ∷ xs) zero s = some (x, s)
get (x ∷ xs) (suc n) s = get xs n s

-- `Sprintf("%010d", n)` for `n` below `10^10`.
abbrev digit : ℕ → Char
digit n =
    let d = n % 10 in
    if nat_beq d 0
    then "0"
    else if nat_beq d 1
    then "1"
    else if nat_beq d 2
    then "2"
    else if nat_beq d 3
    then "3"
    else if nat_beq d 4
    then "4"
    else if nat_beq d 5
    then "5"
    else if nat_beq d 6
    then "6"
    else if nat_beq d 7
    then "7"
    else if nat_beq d 8
    then "8"
    else "9"

abbrev digits : ℕ → ℕ → String → String
digits zero n rest = rest
digits (suc k) n rest = digits k (n / 10) (String.◌∷◌ (digit n) rest)

-- `fmt.Sprintf("+7%010d", n)`.
unfoldable pub phone_text : ℕ → String
phone_text n = String.◌∷◌ "+" (String.◌∷◌ "7" (digits 10 n ""))

pub record EventGenerator : Type 0 where
  pub source_id : Uuid
  pub user_ids : List Uuid
  pub phone_numbers : List String

abbrev pub cells : List String
cells = "A1" ∷ "A2" ∷ "B1" ∷ "B2" ∷ "C1" ∷ "C2" ∷ "D1" ∷ "D2" ∷ []

abbrev pub imeis : List String
imeis = "356938035643809" ∷ "490154203237518" ∷ "352933082395932" ∷ "358240051111110" ∷ []

module _ {S : Type 0} (r : Random S) where
  -- `Intn(0)` panics.
  abbrev pub intn : ℕ → Draw S ℕ
  intn zero s = none
  intn (suc n) s = some (r.below (suc n) s)

  abbrev pub new_id : Draw S Uuid
  new_id s = some (r.new_uuid s)

  -- The loop of `NewEventGenerator` for the users that are left.
  unfoldable pub new_users : ℕ → Draw S (List Uuid × List String)
  new_users zero = give ([], [])
  new_users (suc n) = do
    id ← new_id
    number ← intn 10_000_000_000
    users ← new_users n
    give (id ∷ users.0, phone_text number ∷ users.1)

  -- `NewEventGenerator`.
  unfoldable pub new_event_generator : ℕ → Draw S EventGenerator
  new_event_generator count = do
    users ← new_users count
    source ← new_id
    give (record { source_id = source; user_ids = users.0; phone_numbers = users.1 })

  -- `randomEventType`.
  abbrev pub either_type : EventType → EventType → Draw S EventType
  either_type a b = do coin ← intn 2; give (if nat_beq coin 0 then a else b)

  abbrev pub type_of_roll : ℕ → Draw S EventType
  type_of_roll roll =
      if ltb roll 60
      then give event_type_data
      else if ltb roll 75
      then either_type event_type_call_out event_type_call_in
      else either_type event_type_sms_sent event_type_sms_received

  unfoldable pub random_event_type : Draw S EventType
  random_event_type = do roll ← intn 100; type_of_roll roll

  -- `generateMeta`. The text of a number stands for it.
  abbrev pub maybe_signal : (ℕ → String) → ℕ → Dict String Json → Draw S (Dict String Json)
  maybe_signal text roll meta =
      if ltb roll 3
      then (intn 100 >>= λ n. give (("signal_strength", num (text n)) ∷ meta))
      else give meta

  unfoldable pub generate_meta : (ℕ → String) → Draw S Meta
  generate_meta text = do
    i ← intn (length cells)
    cell ← get cells i
    j ← intn (length imeis)
    imei ← get imeis j
    first ← intn 10
    meta ← maybe_signal text first (("cell", str cell) ∷ ("imei", str imei) ∷ [])
    second_roll ← intn 10
    give (some (if ltb second_roll 2 then ("roaming", bool true) ∷ meta else meta))

  -- The fields by the type of the event: a call, a message, a data session.
  abbrev pub lasting : ℕ → Event → Event
  lasting duration e = record e {
    duration_sec = some duration;
    ended_at = some (add e.started_at (duration * second));
  }

  unfoldable pub finish_call : Event → Draw S Event
  finish_call e = do n ← intn 600; give (lasting (n + 1) e)

  unfoldable pub finish_sms : Event → Draw S Event
  finish_sms e = give (record e { ended_at = some e.started_at })

  unfoldable pub finish_data : Event → Draw S Event
  finish_data e = do
    n ← intn 7_200
    up ← intn 50_000_000
    down ← intn 500_000_000
    give (record (lasting (n + 60) e) { bytes_up = up + 1_000; bytes_down = down + 1_000 })

  unfoldable pub finish : Event → Draw S Event
  finish e =
      if e.event_type == event_type_call_out || e.event_type == event_type_call_in
      then finish_call e
      else if e.event_type == event_type_sms_sent || e.event_type == event_type_sms_received
      then finish_sms e
      else if e.event_type == event_type_data
      then finish_data e
      else give e

  -- `GenerateEvent`, with the two readings of the clock and the texts of numbers.
  unfoldable pub generate_event : (ℕ → String) → Time → Time → EventGenerator → Draw S Event
  generate_event text now created g = do
    user ← intn (length g.user_ids)
    event_type ← random_event_type
    id ← new_id
    user_id ← get g.user_ids user
    phone ← get g.phone_numbers user
    ago ← intn 3_600
    meta ← generate_meta text
    finish (record {
      event_id = id;
      source_id = g.source_id;
      user_id = user_id;
      phone = phone;
      event_type = event_type;
      started_at = record now { nanos = now.nanos - ago * second };
      ended_at = none;
      duration_sec = none;
      bytes_up = 0;
      bytes_down = 0;
      meta = meta;
      created_at = created;
    })

  -- `GenerateBatch`, with the readings of the clock for each event.
  unfoldable pub generate_batch :
      (ℕ → String) → List (Time × Time) → EventGenerator → Draw S (List Event)
  generate_batch text [] g = give []
  generate_batch text ((now, created) ∷ times) g = do
    e ← generate_event text now created g
    es ← generate_batch text times g
    give (e ∷ es)
